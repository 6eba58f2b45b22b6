-- ===== src/Fetcher/Errors/Category.antt =====
-- internal/processor/fetcher/core/errors.go: `ErrorCategory`, a string in the source; the empty one
-- stands for "any" in `Is`.
use Prim.Native.String.{String}

abbrev pub network : String
network = "network"

abbrev pub rate_limit : String
rate_limit = "rate_limit"

abbrev pub timeout : String
timeout = "timeout"

abbrev pub not_found : String
not_found = "not_found"

abbrev pub forbidden : String
forbidden = "forbidden"

abbrev pub parse : String
parse = "parse"

abbrev pub validation : String
validation = "validation"

abbrev pub database : String
database = "database"

abbrev pub queue : String
queue = "queue"

abbrev pub storage : String
storage = "storage"

abbrev pub config : String
config = "config"

abbrev pub internal : String
internal = "internal"
