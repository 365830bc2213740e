-- ===== src/Http/ResponseBound.antt =====
-- corporal/httphelp/response_bound_http_writer.go, with `RespondWithBytes` of response_utils.go.
use matrix_corporal.Base.{ℤ, [], ◌∷◌, ◌++◌, Text, text}
use matrix_corporal.Http.{Response, set_response_header}

-- A call of `RespondWithBytes`.
pub record Written : Type 0 where
  pub status : ℤ
  pub content_type : Text
  pub payload : Text

pub record ResponseBoundHttpWriter : Type 0 where
  pub response : Response
  pub response_bytes : Text

abbrev pub new_response_bound_http_writer : Response → ResponseBoundHttpWriter
new_response_bound_http_writer response = record { response = response; response_bytes = [] }

abbrev pub write : Text → ResponseBoundHttpWriter → ResponseBoundHttpWriter
write b me = record me { response_bytes = me.response_bytes ++ b }

abbrev pub write_header : ℤ → ResponseBoundHttpWriter → ResponseBoundHttpWriter
write_header status_code me = record me {
  response = record me.response { status_code = status_code };
}

-- `me.Header().Set(...)`
abbrev pub set_header : (key value : Text) → ResponseBoundHttpWriter → ResponseBoundHttpWriter
set_header key value me = record me {
  response = set_response_header (λ k. k) key value me.response;
}

-- `RespondWithBytes` with this writer. Both header names are canonical.
unfoldable pub respond_with_bytes : Written → ResponseBoundHttpWriter → ResponseBoundHttpWriter
respond_with_bytes w me = write w.payload (
    write_header w.status (
      set_header (text "Content-Type") w.content_type
        (set_header (text "Access-Control-Allow-Origin") (text "*") me)))

unfoldable pub commit : ResponseBoundHttpWriter → Response
commit me = elim me.response_bytes [
  | [] ↦ me.response
  | x ∷ b ↦ record me.response { body = x ∷ b }
]
