-- ===== src/PathFinder/Tests.antt =====
-- The paths of PathFinder at concrete requests.
use create_httpserver_from_b.Common.{refl, codes}
use create_httpserver_from_b.Exchange.Fixture.{sample_system, sample_server, asking}
use create_httpserver_from_b.PathFinder.{path_finder}
use create_httpserver_from_b.PathFinder.Applied.{Governed}
use create_httpserver_from_b.PathFinder.Governed.{path_finder-Governed}

path_finder-Governed_example :
    Governed sample_server
      (asking (codes "GET") (codes "/a.html"))
      (path_finder sample_system sample_server (asking (codes "GET") (codes "/a.html")))
path_finder-Governed_example =
    path_finder-Governed sample_system sample_server (asking (codes "GET") (codes "/a.html"))
      (codes "a.html") refl
