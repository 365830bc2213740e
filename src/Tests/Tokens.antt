-- ===== src/Tests/Tokens.antt =====
-- A token that the resolver knows from an earlier call.
use matrix_corporal.Base.{
  ℕ, ◌+◌, ◌≡◌, ◌⊎◌, refl, inr, arith, Option, none, some, List, [], ◌∷◌, Text, text, text_eq,
  text_eq_refl, text_eq_iff, ok, if◌then◌else◌,
}
use matrix_corporal.Matrix.Mapping.{
  AccessTokenResolvingResult, ResolverCache, Homeserver, UserMappingResolver, fresh, from_cache,
  to_add, ask_server, resolve_by_access_token, Heard, first, Reachable, starts, asks, adds, goes_on,
}
use matrix_corporal.Matrix.Mapping.Known.{IsLru, IsRecent, resolve_by_access_token_lem}
use matrix_corporal.Tests.Samples.{john_id}

-- A cache of one entry.
abbrev entry_for :
    Text → Option (Text × AccessTokenResolvingResult) → Option AccessTokenResolvingResult
entry_for k none = none
entry_for k (some (j, r)) = if text_eq j k then some r else none

abbrev one_entry : ResolverCache (Option (Text × AccessTokenResolvingResult))
one_entry = record { get = λ k c. (entry_for k c, c); add = λ k r c. some (k, r) }

one_entry-IsLru : IsLru one_entry none
one_entry-IsLru = record {
  get-empty = λ k. refl;
  get-get = λ k j c. inr refl;
  get-add_self = λ k r c. ground (arith, text_eq_refl k);
  get-add_other = λ k j r c h. ground (arith, text_eq_iff k j);
}

-- The world is the time. A request takes ten milliseconds.
abbrev johns : Homeserver Text ℕ
johns = record {
  unix_milli = λ w. w;
  who_am_i = λ access_token w. (ok john_id, w + 10);
  resp_code = λ e. some e;
}

-- The result that the first call is about to add.
abbrev johns_result : AccessTokenResolvingResult
johns_result = record { matrix_user_id = john_id; expires_at_timestamp = 6 }

abbrev knowing : UserMappingResolver (Option (Text × AccessTokenResolvingResult)) ℕ
knowing = record { cache = some (text "secret", johns_result); pending = []; world = 5999 }

abbrev heard : List Heard
heard = record { access_token = text "secret"; answer = some john_id; at = 1010 } ∷ []

knowing-Reachable : Reachable johns one_entry 5000 none heard knowing
unfolding ask_server to_add
knowing-Reachable =
    goes_on 5999 (adds (text "secret", johns_result) [] first (asks (text "secret") (starts 1000)))

resolve_by_access_token_lem_example :
    ((johns.who_am_i (text "secret") 5999).0 ≡ ok john_id)
    ⊎ IsRecent johns one_entry 5000 heard 5999 (text "secret") john_id
unfolding resolve_by_access_token fresh from_cache text_eq
resolve_by_access_token_lem_example =
    resolve_by_access_token_lem johns one_entry 5000 none one_entry-IsLru heard knowing
      (text "secret") john_id knowing-Reachable refl
