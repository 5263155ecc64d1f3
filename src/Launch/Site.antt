-- ===== src/Launch/Site.antt =====
-- httpd.cpp: the handlers of requests that `serve_sync` and `serve_async` build, for a directory of the
-- system.
use cse124_httpserver.Base.{ℕ, List, Option, Text, Result}
use cse124_httpserver.Http.{HttpRequest, HttpResponse}
use cse124_httpserver.Dns.{lookup_network}
use cse124_httpserver.Handlers.{directory_get_file, site_handler}
use cse124_httpserver.Handlers.Files.{FileSystem, find_path}
use cse124_httpserver.AsyncHandlers.{Task, site_handler_async}

module _ (inet_pton : Text → Option ℕ) (getaddrinfo : Text → ℕ × List ℕ) (format_date : ℕ → Text)
    (system : FileSystem) (doc_root : Text) where
  -- The handler of `serve_sync`, with `wrap_htaccess_middleware`.
  abbrev pub request_handler : HttpRequest → Result HttpResponse
  request_handler =
      site_handler inet_pton (lookup_network getaddrinfo) format_date
        (directory_get_file (find_path system) doc_root)

  -- The handler of `serve_async`, with `wrap_htaccess_middleware_async`.
  abbrev pub request_handler_async : HttpRequest → Task HttpResponse
  request_handler_async =
      site_handler_async inet_pton (lookup_network getaddrinfo) format_date
        (directory_get_file (find_path system) doc_root)
