-- ===== src/CgiHandler/Tests.antt =====
-- The descriptors of a CGI request where the second pipe cannot be created.
use create_httpserver_from_b.Common.{true, codes}
use create_httpserver_from_b.Message.{new_response}
use create_httpserver_from_b.Exchange.{Exchange}
use create_httpserver_from_b.Exchange.Fixture.{sample_system, asking}
use create_httpserver_from_b.CgiHandler.{outsource_get, outsource_post}
use create_httpserver_from_b.CgiHandler.ClosedEnd.{SettledGet, outsource_get-SettledGet}
use create_httpserver_from_b.CgiHandler.Descriptors.{Settled, outsource_post-Settled}

abbrev posting : Exchange
posting =
    let x = asking (codes "POST") (codes "/a.py") in
    record x { response = record new_response { file_exist = true; cgi_flag = true } }

outsource_post-Settled_example :
    Settled sample_system posting (outsource_post sample_system posting)
outsource_post-Settled_example = outsource_post-Settled sample_system posting

outsource_get-SettledGet_example :
    SettledGet sample_system posting (outsource_get sample_system posting)
outsource_get-SettledGet_example = outsource_get-SettledGet sample_system posting
