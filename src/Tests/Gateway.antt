-- ===== src/Tests/Gateway.antt =====
-- Examples of the gateway: its checks, its logins and its handlers.
use matrix_corporal.Base.{
  ◌≡◌, refl, ◌⊎◌, ◌↔◌, Bool, true, false, none, some, List, [], ◌∷◌, Text, text, text_eq, ok, err,
  Result, has_prefix, has_suffix, lookup, drop,
}
use matrix_corporal.Http.{Request, with_request_body}
use matrix_corporal.Matrix.{
  determine_full_user_id, is_full_user_id_of_domain, login_type_token, login_type_password,
}
use matrix_corporal.Util.{is_string_in_array}
use matrix_corporal.Hook.{
  event_type_before_any_request, event_type_before_authenticated_request,
  event_type_before_authenticated_policy_checked_request,
}
use matrix_corporal.Policy.{Policy, get_user_policy_by_user_id, find_user}
use matrix_corporal.Policy.Checker.{
  can_user_create_room, can_user_leave_room, can_user_change_own_membership_state_in_room,
  is_not_joined,
}
use matrix_corporal.Gateway.Policycheck.{
  check_room_create, check_room_leave, check_room_kick, check_room_membership_state_change,
}
use matrix_corporal.Gateway.Policycheck.Agreement.{
  allows, leave_answer, leave_ways_agree, MayCreate, check_room_create_iff,
}
use matrix_corporal.Gateway.Interceptor.{
  ApiLoginRequestPayload, proxy, Logins, intercept, intercept_user, authenticate_login,
}
use matrix_corporal.Gateway.Interceptor.Verdict.{
  is_3pid, IsPassedUser, intercept-proxy, check_credentials-intercept_user,
}
use matrix_corporal.Gateway.RestAuth.{Net, check_credentials}
use matrix_corporal.Gateway.HookRunner.{
  Exchange, Surroundings, run_hooks_from, run_all_matching_type,
}
use matrix_corporal.Gateway.HookRunner.Sends.{IsExecutor}
use matrix_corporal.Gateway.Handlers.{
  policy_checking_handler, login_handler, action_catch_all, get_access_token_from_request,
  get_access_token_from_request_header, authenticate_request, check_policy, run_hooks,
  run_two_hooks_if, pass_on,
}
use matrix_corporal.Gateway.Handlers.Replies.{Leaves, handlers_reply_once}
use matrix_corporal.Gateway.Handlers.Bypass.{IsAuthenticated, IsAllowed, policy_checking_handler-ok}
use matrix_corporal.Tests.Samples.{
  policy, john_id, domain, room, request, compile_error, match_string,
}

-- Payloads that are the text itself.
abbrev read_text : Text → Result Text Text
read_text body = ok body

abbrev read_types : Text → Result Text (List Text)
read_types body = ok (body ∷ [])

abbrev kick : Request
kick = with_request_body john_id request

leave_ways_agree_example :
    (check_room_leave request policy ≡ leave_answer (can_user_leave_room policy john_id room))
    × (check_room_kick read_text kick policy
        ≡ leave_answer (can_user_leave_room policy john_id room))
    × (check_room_membership_state_change request policy
        ≡ leave_answer (can_user_leave_room policy john_id room))
unfolding lookup text_eq
leave_ways_agree_example =
    leave_ways_agree read_text policy john_id request kick request refl refl refl refl refl refl
      refl

abbrev create : Request
create = record request { body = text "m.room.encryption" }

check_room_create_iff_example : (allows (check_room_create read_types create policy) ≡ true) ↔ (
    (can_user_create_room policy john_id ≡ true)
    × ((types : List Text) × (read_types create.body ≡ ok types) × MayCreate policy john_id types))
check_room_create_iff_example = check_room_create_iff read_types policy john_id create refl

-- The password is right if it is the credential.
abbrev logins : Logins (Unit {0})
logins = record {
  homeserver_domain_name = domain;
  check = λ user_id given auth_type credential s. (ok (text_eq given credential), s);
  generate_for_user_id = λ user_id. user_id;
  read_login = λ body. err [];
  write_login = λ payload. ok payload.password;
}

abbrev no_net : Net (Unit {0})
no_net = record {
  split_host_port = λ address. none;
  parse_ip = λ address. none;
  is_loopback = λ ip. false;
  is_link_local_unicast = λ ip. false;
  is_link_local_multicast = λ ip. false;
  parses_cidr = λ cidr. true;
  contains = λ cidr ip. true;
}

abbrev payload : ApiLoginRequestPayload
payload = record {
  type = text "m.login.password";
  password = text "pw";
  medium = [];
  user = [];
  address = [];
  token = [];
  device_id = [];
  initial_device_display_name = [];
  identifier_type = text "m.id.user";
  identifier_user = text "john";
}

abbrev passed : Request
passed = with_request_body john_id request

-- The same, with a reader that finds the payload.
abbrev reading_logins : Logins (Unit {0})
reading_logins = record logins { read_login = λ body. ok payload }

intercept-proxy_example :
    (p : ApiLoginRequestPayload) × (reading_logins.read_login request.body ≡ ok p)
    × (((text_eq p.type login_type_token ≡ true) × (passed ≡ request))
        ⊎ ((text_eq p.type login_type_password ≡ true)
            × ((held : Policy) × (some policy ≡ some held)
                × (((is_3pid reading_logins p ≡ true)
                      × (held.flags.allow_3pid_login ≡ true)
                      × (passed ≡ request))
                    ⊎ ((is_3pid reading_logins p ≡ false)
                        × IsPassedUser reading_logins held p request passed tt tt)))))
unfolding intercept intercept_user authenticate_login determine_full_user_id
    is_full_user_id_of_domain is_string_in_array get_user_policy_by_user_id find_user text_eq
    has_prefix has_suffix
intercept-proxy_example = intercept-proxy reading_logins (some policy) request passed tt tt refl

check_credentials-intercept_user_example :
    intercept_user logins policy payload request tt
    ≡ ((proxy, with_request_body john_id request), tt)
unfolding check_credentials determine_full_user_id is_full_user_id_of_domain
    get_user_policy_by_user_id find_user text_eq has_prefix has_suffix
check_credentials-intercept_user_example =
    check_credentials-intercept_user logins policy no_net payload request john_id (text "John")
      john_id tt tt refl refl

-- An executor that passes every request unmodified, and a store that has the policy.
abbrev surroundings : Surroundings (Unit {0}) (Unit {0})
surroundings = record {
  execute = λ h x. ok (
    record {
      hooks = h ∷ [];
      response_sent = false;
      skip_next_hooks_in_chain = false;
      processing_error = none;
      reverse_proxy_response_modifiers = [];
    },
    x,
  );
  get_policy = λ s. (some (record policy { hooks = [] }), s);
  resolve_by_access_token = λ token s. (ok john_id, s);
  compile_error = compile_error;
  match_string = match_string;
}

surroundings-IsExecutor : IsExecutor surroundings
surroundings-IsExecutor = record { sends = λ h x. refl; sends_no_error = λ h x failing. refl }

abbrev arrived : Exchange (Unit {0}) (Unit {0})
arrived = record {
  request = record request {
    access_token = none;
    user_id = none;
    vars = (text "roomId", text "!c:x.org") ∷ [];
  };
  outside = tt;
  replies = [];
}

abbrev answered : Exchange (Unit {0}) (Unit {0})
answered = (policy_checking_handler surroundings check_room_leave false arrived).1

handlers_reply_once_example :
    Leaves surroundings surroundings-IsExecutor true
      (policy_checking_handler surroundings check_room_leave false arrived)
      []
    × Leaves surroundings surroundings-IsExecutor true
        (login_handler surroundings (λ r s. ((proxy, r), s)) arrived)
        []
    × Leaves surroundings surroundings-IsExecutor true (action_catch_all surroundings arrived) []
handlers_reply_once_example =
    handlers_reply_once surroundings surroundings-IsExecutor check_room_leave false
      (λ r s. ((proxy, r), s)) arrived

policy_checking_handler-ok_example :
    (is_authenticated : Bool) × (before before_all : List (Unit {0})) × (started identified asked
      finished : Exchange (Unit {0}) (Unit {0}))
    × (run_hooks surroundings event_type_before_any_request [] arrived ≡ (ok before, started))
    × IsAuthenticated surroundings false is_authenticated started identified
    × (run_two_hooks_if surroundings is_authenticated event_type_before_authenticated_request
          event_type_before_authenticated_policy_checked_request before identified
        ≡ (ok before_all, asked))
    × IsAllowed surroundings check_room_leave asked finished
    × (pass_on surroundings is_authenticated before_all finished ≡ (ok tt, answered))
unfolding policy_checking_handler authenticate_request check_policy run_hooks run_two_hooks_if
    pass_on run_all_matching_type run_hooks_from get_access_token_from_request
    get_access_token_from_request_header check_room_leave can_user_leave_room
    can_user_change_own_membership_state_in_room is_not_joined get_user_policy_by_user_id find_user
    text_eq lookup has_prefix drop
policy_checking_handler-ok_example =
    policy_checking_handler-ok surroundings check_room_leave false arrived answered refl
