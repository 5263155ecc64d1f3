-- ===== src/Tests/AsyncHandlers.antt =====
-- The asynchronous handlers on the examples of the blocking ones.
use cse124_httpserver.Base.{◌≡◌, ap, none, some, Option, [], Text}
use cse124_httpserver.Handlers.{File, site_handler}
use cse124_httpserver.AsyncHandlers.{site_handler_async}
use cse124_httpserver.AsyncHandlers.Blocking.{supply, supply-site_handler}
use cse124_httpserver.Tests.Handlers.{dated, site, cat_request}
use cse124_httpserver.Tests.Htaccess.{knows_ten, finds_none}

abbrev text_of_file : Option File → Text
text_of_file none = []
text_of_file (some file) = file.file_contents

-- What reads of the site's files bring.
abbrev pub site_contents : Text → Text
site_contents path = text_of_file (site path)

pub site_holds :
    (path : Text) (file : File) → site path ≡ some file → site_contents path ≡ file.file_contents
site_holds path file e = ap text_of_file e

supply-site_handler_example :
    supply site_contents (site_handler_async knows_ten finds_none dated site cat_request)
    ≡ site_handler knows_ten finds_none dated site cat_request
supply-site_handler_example =
    supply-site_handler knows_ten finds_none dated site site_contents site_holds cat_request
