-- ===== src/Tests/Providers.antt =====
-- A run of the HTTP policy provider, a restart, and a policy server that is away after the first
-- request.
use matrix_corporal.Base.{◌≡◌, refl, true, false, Option, none, some, [], Text, text, pos, ok, err}
use matrix_corporal.Policy.Store.{new_store}
use matrix_corporal.Policy.Providers.{
  Files, Provided, read_file, load_policy_from_remote, load_policy_from_cache,
  store_policy_in_cache, policy_of_response, set_policy, do_load, load_http,
}
use matrix_corporal.Policy.Providers.Loading.{Settles, Loads, load_http_lem}
use matrix_corporal.Policy.Providers.Caching.{KeepsFiles, load_http-load_http}
use matrix_corporal.Tests.Samples.{policy, domain}

-- The world is the cache's file. The policy server answers while there is none.
abbrev files : Files (Option Text)
files = record {
  open_file = λ path w. elim w [ none ↦ (err (text "ENOENT"), none) | some c ↦ (ok tt, some c) ];
  is_not_exist = λ e. true;
  read_all = λ path w. elim w [ none ↦ (err (text "EBADF"), none) | some c ↦ (ok c, some c) ];
  create_file = λ path w. (none, some []);
  write_file = λ path content w. (none, some content);
  fetch = λ uri authorization w. elim w [
    | none ↦ (ok (record { status_code = pos 200; body = ok (text "{}") }), none)
    | some c ↦ (err (text "connection refused"), some c)
  ];
  decimal = λ z. text "404";
  unmarshal_policy = λ bytes. ok policy;
  marshal_policy = λ p. ok (text "{}");
}

abbrev compiles : Text → Option Text
compiles pattern = none

abbrev uri : Text
uri = text "https://intranet.example.com/policy"

abbrev path : Text
path = text "/var/cache/policy.json"

abbrev first_run : Provided (Option Text)
first_run = record { world = none; store = new_store }

request_keeps :
    (p u authorization : Text) (w : Option Text)
    → (read_file files compiles domain p (files.fetch u authorization w).1).0
      ≡ (read_file files compiles domain p w).0
request_keeps p u authorization none = refl
request_keeps p u authorization (some c) = refl

files-KeepsFiles : KeepsFiles files compiles domain
unfolding read_file
files-KeepsFiles = ((λ p content w created written. refl), request_keeps)

load_http_lem_example :
    Loads files compiles domain uri
      (text "secret")
      (some path)
      false
      first_run
      (load_http files compiles domain uri (text "secret") (some path) false first_run)
load_http_lem_example =
    load_http_lem files compiles domain uri (text "secret") (some path) false first_run

abbrev second_run : Provided (Option Text)
second_run = record { world = some (text "{}"); store = new_store }

load_http-load_http_example :
    Settles files compiles domain policy second_run
      (load_http files compiles domain uri (text "secret") (some path) true second_run)
unfolding load_http do_load load_policy_from_remote load_policy_from_cache store_policy_in_cache
    policy_of_response set_policy read_file
load_http-load_http_example =
    load_http-load_http files compiles domain files-KeepsFiles policy (text "{}") refl refl path uri
      (text "secret") false first_run new_store (text "connection refused") refl refl refl
