-- ===== src/HttpProcessor/Tests.antt =====
-- HttpProcessor at concrete requests.
use create_httpserver_from_b.Common.{◌≡◌, refl, true, inl, [], codes}
use create_httpserver_from_b.Exchange.{Exchange}
use create_httpserver_from_b.Exchange.World.{writes, world}
use create_httpserver_from_b.Exchange.Fixture.{sample_system, sample_server, asking}
use create_httpserver_from_b.HttpProcessor.{dispatch, http_processor}
use create_httpserver_from_b.MethodHandler.OneWrite.{OneWrite}
use create_httpserver_from_b.HttpProcessor.OneWrite.{dispatch-OneWrite}
use create_httpserver_from_b.HttpProcessor.Permitted.{Handled, http_processor-Handled}
use create_httpserver_from_b.HttpProcessor.ReadOnly.{http_processor-writes}

http_processor-Handled_example :
    Handled sample_server
      (codes "PUT")
      []
      []
      (http_processor sample_system sample_server (asking (codes "PUT") (codes "/a.html")))
http_processor-Handled_example =
    http_processor-Handled sample_system sample_server (asking (codes "PUT") (codes "/a.html"))
      (codes "a.html") refl (inl refl)

http_processor-writes_example :
    writes
      (world (http_processor sample_system sample_server (asking (codes "GET") (codes "/a.html"))))
    ≡ []
http_processor-writes_example =
    http_processor-writes sample_system sample_server (asking (codes "GET") (codes "/a.html"))
      (codes "a.html") refl (inl refl)

-- A file that exists below a location that lists DELETE
abbrev deleting : Exchange
deleting =
    let x = asking (codes "DELETE") (codes "/a.html") in
    let r = x.response in
    record x {
      response = record r {
        accepted_method = codes "DELETE";
        file_path = codes "www/";
        file_name = codes "a.html";
        path_exist = true;
        file_exist = true;
      };
    }

dispatch-OneWrite_example : OneWrite deleting (dispatch sample_system deleting)
dispatch-OneWrite_example = dispatch-OneWrite sample_system deleting
