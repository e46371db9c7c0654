-- ===== src/Status.antt =====
-- src/status.c: `getStatusStrings`, a switch over the status code, as tables of its cases, and the
-- page that `status` writes.
pub mod Format
mod Tests
use Prim.Native.String.{String}
use cfloor.Base.{ℕ, Option, none, some, List, [], ◌∷◌, ◌++◌, Bytes, codes, if◌then◌else◌, ◌==◌}

pub record StatusStrings : Type 0 where
  pub status_string : Bytes
  pub status_format : Bytes

pub record Case : Type 0 where
  pub code : ℕ
  pub strings : StatusStrings

abbrev case : ℕ → String → String → Case
case n s f = record {
  code = n;
  strings = record { status_string = codes s; status_format = codes f };
}

abbrev pub informational : List Case
informational =
    case 100 "Continue" "" ∷ case 101 "Switching Protocols" "" ∷ case 102 "Processing" "" ∷ []

abbrev pub successful : List Case
successful =
    case 200 "OK" ""
    ∷ case 201 "Created" ""
    ∷ case 202 "Accepted" ""
    ∷ case 203 "Non-Authoritative Information" ""
    ∷ case 204 "No Content" ""
    ∷ case 205 "Reset Content" ""
    ∷ case 206 "Partial Content" ""
    ∷ case 207 "Multi-Status" ""
    ∷ case 208 "Already Reported" ""
    ∷ case 226 "IM Used" ""
    ∷ []

abbrev pub redirection : List Case
redirection =
    case 300 "Multiple Choices" ""
    ∷ case 301 "Moved Permanently" ""
    ∷ case 302 "Found (Moved Temporarily)" ""
    ∷ case 303 "See Other" ""
    ∷ case 304 "Not Modified" ""
    ∷ case 305 "Use Proxy" ""
    ∷ case 306 "(reserved)" ""
    ∷ case 307 "Temporary Redirect" ""
    ∷ case 308 "Permanent Redirect" ""
    ∷ []

abbrev pub client_errors : List Case
client_errors =
    case 400 "Bad Request" ""
    ∷ case 401 "Unauthorized" ""
    ∷ case 402 "Payment Required" ""
    ∷ case 403 "Forbidden" "You don't have the permission to access %s."
    ∷ case 404 "Not found" "The file %s was not found on this server."
    ∷ case 405 "Method Not Allowed" ""
    ∷ case 406 "Not Acceptable" ""
    ∷ case 407 "Proxy Auhentication Required" ""
    ∷ case 408 "Request Timeout" ""
    ∷ case 409 "Conflict" ""
    ∷ case 410 "Gone" ""
    ∷ case 411 "Length Required" ""
    ∷ case 412 "Precondition Failed" ""
    ∷ case 413 "Request Entity Too Large" ""
    ∷ case 414 "URI Too Long" ""
    ∷ case 415 "Unsupported Media Type" ""
    ∷ case 416 "Requested Range Not Satisfiable" ""
    ∷ case 417 "Expectation Failed" ""
    ∷ case 418 "I'm a teapot" ""
    ∷ case 420 "Policy Not Fulfilled" ""
    ∷ case 421 "Misdirected Request" ""
    ∷ case 422 "Unprocessable Entity" ""
    ∷ case 423 "Locked" ""
    ∷ case 424 "Failed Dependency" ""
    ∷ case 426 "Upgrade Required" ""
    ∷ case 428 "Precondition Required" ""
    ∷ case 429 "Too Many Requests" ""
    ∷ case 431 "Request Header Fields Too Large" ""
    ∷ case 451 "Unavailable For Legal Reasons" ""
    ∷ []

abbrev pub server_errors : List Case
server_errors =
    case 500 "Internal Server Error" ""
    ∷ case 501 "Not Implemented" ""
    ∷ case 502 "Bad Gateway" ""
    ∷ case 503 "Service Unavailable" ""
    ∷ case 504 "Gateway Timeout" ""
    ∷ case 505 "HTTP Version Not Supported" ""
    ∷ case 506 "Variant Also Negotiates" ""
    ∷ case 507 "Insufficient Storage" ""
    ∷ case 508 "Loop Detected" ""
    ∷ case 509 "Bandwidth Limit Exceeded" ""
    ∷ case 510 "Not Extended" ""
    ∷ case 511 "Notwork Authentication Required" ""
    ∷ []

-- The case of the switch, and the default.
unfoldable pub select : ℕ → List Case → Option StatusStrings
select status [] = none
select status (c ∷ cs) = if status == c.code then some c.strings else select status cs

abbrev pub all_cases : List Case
all_cases = informational ++ (successful ++ (redirection ++ (client_errors ++ server_errors)))

abbrev pub unknown_status : StatusStrings
unknown_status = record {
  status_string = codes "Unknown Status Code";
  status_format = codes "This is pretty bad.";
}

unfoldable pub get_status_strings : ℕ → StatusStrings
unfolding select
get_status_strings status = elim (select status all_cases) [ none ↦ unknown_status | some s ↦ s ]

-- `fprintf` with one string argument: "%s" is replaced. `none`: a conversion that the argument
-- does not fit, where the behaviour is undefined.
unfoldable pub format_one : Bytes → Option Bytes → Option Bytes
format_one [] arg = some []
format_one (c ∷ []) arg = if c == b'%' then none else some (c ∷ [])
format_one (c ∷ d ∷ rest) arg =
    let after = format_one rest none in
    let plain = format_one (d ∷ rest) arg in
    if c == b'%'
    then if d == b's'
      then elim arg [ none ↦ none | some a ↦ elim after [ none ↦ none | some t ↦ some (a ++ t) ] ]
      else none
    else elim plain [ none ↦ none | some t ↦ some (c ∷ t) ]

abbrev pub page_of : StatusStrings → Bytes → Bytes
page_of strings text =
    codes "<!DOCTYPE html>\n<html>\n\t<head>\n\t\t<title>"
    ++ (strings.status_string
        ++ (codes "</title>\n\t</head>\n\t<body>\n\t\t<h1>"
            ++ (strings.status_string
                ++ (codes "</h1>\n" ++ (text ++ codes "\t\t<hr />\n\t</body>\n</html>\n")))))

-- The page of a status, the path of the request being the argument of its format.
unfoldable pub status_page : ℕ → Bytes → Option Bytes
status_page status path =
    let strings = get_status_strings status in
    elim (format_one strings.status_format (some path)) [
      | none ↦ none
      | some text ↦ some (page_of strings text)
    ]
