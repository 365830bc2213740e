-- ===== src/Gateway/RestAuth.antt =====
-- corporal/httpgateway/handler/internal_rest_auth.go: the credentials check for the homeserver.
-- Package `net` is a parameter: `split_host_port` and `parse_ip`, the tests of an address, and
-- `contains`, whether a block that `net.ParseCIDR` reads contains it.
use matrix_corporal.Base.{
  ℕ, Bool, true, false, not, ◌||◌, Option, none, some, List, [], ◌∷◌, Text, text, text_eq, Result,
  ok, err, if◌then◌else◌,
}
use matrix_corporal.Http.{Request}
use matrix_corporal.Matrix.{
  error_bad_json, error_forbidden, error_unknown, determine_full_user_id, is_full_user_id_of_domain,
}
use matrix_corporal.UserAuth.{user_auth_type_passthrough}
use matrix_corporal.Policy.{Policy, get_user_policy_by_user_id}
use matrix_corporal.Gateway.Interceptor.{Logins}

-- What is written to the response.
pub data RestAuthReply : Type 0 where
  matrix_error : (status : ℕ) (error_code error_message : Text) → RestAuthReply
  unsuccessful : RestAuthReply
  successful : (matrix_id display_name : Text) → RestAuthReply

pub record Net (Ip : Type 0) : Type 0 where
  pub split_host_port : Text → Option Text
  pub parse_ip : Text → Option Ip
  pub is_loopback : Ip → Bool
  pub is_link_local_unicast : Ip → Bool
  pub is_link_local_multicast : Ip → Bool
  pub parses_cidr : Text → Bool
  pub contains : (cidr : Text) → Ip → Bool

-- `HttpGatewayInternalRESTAuth` of corporal/configuration/configuration.go.
pub record InternalRestAuth : Type 0 where
  pub enabled : Option Bool
  pub ip_network_whitelist : Option (List Text)

abbrev pub is_enabled : InternalRestAuth → Bool
is_enabled configuration = elim configuration.enabled [ none ↦ false | some b ↦ b ]

module _ {Ip : Type 0} (net : Net Ip) where
  -- A block is named by its text. `err` is the text that does not parse.
  unfoldable pub cidr_list_to_block_list : List Text → Result Text (List Text)
  cidr_list_to_block_list [] = ok []
  cidr_list_to_block_list (cidr ∷ cidrs) =
      let rest = cidr_list_to_block_list cidrs in
      if net.parses_cidr cidr
      then elim rest [ err bad ↦ err bad | ok blocks ↦ ok (cidr ∷ blocks) ]
      else err cidr

  unfoldable pub private_networks : List Text
  private_networks =
      text "127.0.0.0/8"
      ∷ text "10.0.0.0/8"
      ∷ text "172.16.0.0/12"
      ∷ text "192.168.0.0/16"
      ∷ text "169.254.0.0/16"
      ∷ text "::1/128"
      ∷ text "fe80::/10"
      ∷ text "fc00::/7"
      ∷ []

  abbrev some_blocks : Result Text (List Text) → Result Text (Option (List Text))
  some_blocks (err bad) = err bad
  some_blocks (ok blocks) = ok (some blocks)

  unfoldable pub determine_whitelisted_ip_blocks :
      InternalRestAuth → Result Text (Option (List Text))
  determine_whitelisted_ip_blocks configuration =
      if not (is_enabled configuration) then ok none else elim configuration.ip_network_whitelist [
        | none ↦ some_blocks (cidr_list_to_block_list private_networks)
        | some list ↦ elim list [
          | [] ↦ ok none
          | cidr ∷ cidrs ↦ some_blocks (cidr_list_to_block_list (cidr ∷ cidrs))
        ]
      ]

  -- The loop over the blocks.
  unfoldable pub any_contains : Ip → List Text → Bool
  any_contains ip [] = false
  any_contains ip (block ∷ blocks) = if net.contains block ip then true else any_contains ip blocks

  unfoldable pub is_whitelisted_ip_address : Ip → List Text → Bool
  is_whitelisted_ip_address ip allowed_networks =
      if (net.is_loopback ip || net.is_link_local_unicast ip) || net.is_link_local_multicast ip
      then true
      else any_contains ip allowed_networks

  -- Whether there is no error.
  unfoldable pub check_if_request_is_allowed :
      (whitelisted_ip_blocks : Option (List Text)) (remote_addr : Text) → Bool
  check_if_request_is_allowed whitelisted_ip_blocks remote_addr =
      elim (net.split_host_port remote_addr) [
        | none ↦ false
        | some ip ↦ elim (net.parse_ip ip) [
          | none ↦ false
          | some user_ip ↦ elim whitelisted_ip_blocks [
            | none ↦ true
            | some blocks ↦ is_whitelisted_ip_address user_ip blocks
          ]
        ]
      ]

  module _ {S : Type 0} (me : Logins S) where
    -- From the policy on, for the id and the password of the payload.
    unfoldable pub check_credentials : Policy → (id password : Text) → S → RestAuthReply × S
    check_credentials policy id password s =
        elim (determine_full_user_id id me.homeserver_domain_name) [
          | err e ↦ (unsuccessful, s)
          | ok user_id_full ↦
              if not (is_full_user_id_of_domain user_id_full me.homeserver_domain_name)
              then (unsuccessful, s)
              else elim (get_user_policy_by_user_id policy user_id_full) [
                | none ↦ (unsuccessful, s)
                | some u ↦
                    if not u.active
                    then (unsuccessful, s)
                    else if text_eq u.auth_type user_auth_type_passthrough
                    then (unsuccessful, s)
                    else let (checked, s') =
                        me.check user_id_full password u.auth_type u.auth_credential s in
                      elim checked [
                        | err e ↦ (
                          matrix_error 500 error_unknown (text "Internal authenticator error"),
                          s',
                        )
                        | ok is_authenticated ↦
                            if not is_authenticated
                            then (unsuccessful, s')
                            else (successful user_id_full u.display_name, s')
                      ]
              ]
        ]

    -- `read_credentials` reads the id and the password from the body (encoding/json).
    unfoldable pub action_check_credentials :
        (configuration : InternalRestAuth) (whitelisted_ip_blocks : Option (List Text))
        (read_credentials : Text → Result Text (Text × Text)) (policy_obj : Option Policy)
        (remote_addr : Text)
        → Request
        → S
        → RestAuthReply × S
    action_check_credentials configuration whitelisted_ip_blocks read_credentials policy_obj
          remote_addr r s =
        if not (is_enabled configuration)
        then (matrix_error 403 error_forbidden (text "Internal REST auth is not enabled"), s)
        else if not (check_if_request_is_allowed whitelisted_ip_blocks remote_addr)
        then (
          matrix_error 403 error_forbidden
              (text "Refusing to authenticate this HTTP request (bad source IP)"),
          s,
        )
        else elim (read_credentials r.body) [
          | err message ↦ (matrix_error 400 error_bad_json (text "Bad request payload"), s)
          | ok payload ↦ elim policy_obj [
            | none ↦ (matrix_error 500 error_unknown (text "Missing policy"), s)
            | some policy ↦ check_credentials policy payload.0 payload.1 s
          ]
        ]
