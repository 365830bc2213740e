-- ===== src/Hook/Executor/Injection.antt =====
-- What hooks do to the response of the homeserver (corporal/hook/executor.go).
use matrix_corporal.Base.{
  ◌≡◌, refl, inl, inr, false, Option, none, some, [], ◌∷◌, Text, text_eq, text_eq_iff, GoMap,
  lookup, insert, lookup-insert, length, ok, Bool-cases,
}
use matrix_corporal.Http.{Response, with_response_body}
use matrix_corporal.Hook.{Json}
use matrix_corporal.Hook.Execution.{Modified}
use matrix_corporal.Hook.Actions.{
  Executor, insert_all, inject_json, injected_bytes, inject_into_response, json_of_map,
  set_response_headers,
}

-- A Go map has distinct keys.
abbrev pub IsGoMap : {V : Type 0} → GoMap V → Type 0
IsGoMap [] = Unit
IsGoMap ((k, v) ∷ m) = (lookup k m ≡ none) × IsGoMap m

-- The second map, where the first has no value.
abbrev pub override : {V : Type 0} → Option V → Option V → Option V
override (some v) below = some v
override none below = below

lookup-insert_all :
    {V : Type 0} (injected payload : GoMap V) (k : Text)
    → IsGoMap injected
    → lookup k (insert_all injected payload) ≡ override (lookup k injected) (lookup k payload)
unfolding insert_all lookup
lookup-insert_all [] payload k distinct = refl
lookup-insert_all ((j, v) ∷ injected) payload k distinct = elim (Bool-cases (text_eq j k)) [
  | inl same ↦
      let e : j ≡ k = (text_eq_iff j k).0 same in
      let gone : lookup k injected ≡ none = rw (← e) distinct.0 in
      rw
        (
          lookup-insert_all injected (insert j v payload) k distinct.1,
          lookup-insert j k v payload,
          same,
          gone,
        )
        refl
  | inr other ↦
      rw
        (
          lookup-insert_all injected (insert j v payload) k distinct.1,
          lookup-insert j k v payload,
          other,
        )
        refl
]

module _ {S : Type 0} (me : Executor S) where
  headers-keep :
      (headers : GoMap Text) (r : Response)
      → let r' = set_response_headers me headers r in
        (r'.body ≡ r.body)
        × (r'.status_code ≡ r.status_code)
        × (r'.content_length ≡ r.content_length)
  headers-keep [] r = (refl, refl, refl)
  headers-keep ((k, v) ∷ headers) r = headers-keep headers _

  -- The modifier of `pass.modifiedResponse`, on a response whose body is a JSON object, writes the
  -- object back with every injected field set to its injected value and every other field kept. It
  -- leaves the status, and lets the next modifiers run.
  pub inject_into_response_lem :
      (injected payload : GoMap Json) (headers : GoMap Text) (x : Modified S) (bytes : Text)
      → IsGoMap injected
      → me.unmarshal_object x.response.body ≡ ok (some payload)
      → me.marshal (json_of_map (some (insert_all injected payload))) ≡ ok bytes
      → (y : Modified S) × (inject_into_response me injected headers x ≡ ok (ok false, y))
        × (y.response.body ≡ bytes)
        × (y.response.content_length ≡ length bytes)
        × (y.response.status_code ≡ x.response.status_code)
        × ((k : Text)
            → lookup k (insert_all injected payload)
              ≡ override (lookup k injected) (lookup k payload))
  unfolding inject_into_response injected_bytes inject_json
  inject_into_response_lem injected payload headers x bytes distinct read written =
      let kept = headers-keep headers (with_response_body bytes x.response) in
      (
        record x {
          response = set_response_headers me headers (with_response_body bytes x.response);
        },
        rw (read, written, injected_bytes, inject_json, inject_into_response) refl,
        kept.0,
        kept.2,
        kept.1,
        λ k. lookup-insert_all injected payload k distinct,
      )
