-- ===== src/Commands/Login/Outcome.antt =====
-- What a login request can come to.
use teams_mirror.Prelude.{
  ℕ, ◌≡◌, refl, false, not, Option, none, some, [], ◌∷◌, arith, ◌==◌, nat_eq, Option-cases,
  Bool-cases, inl, inr, is_empty,
}
use teams_mirror.Bytes.{Bytes, extract_fixed_string}
use teams_mirror.Map.{Map, find, contains}
use teams_mirror.Protocol.{StatusCode}
use teams_mirror.Protocol.Requests.{decode_req_login}
use teams_mirror.Server.{Env, Server, Request, queue_status}
use teams_mirror.Commands.Login.{login_as, handle_login_command}

absent-find : (fd : ℕ) (m : Map ℕ Bytes) → contains fd m ≡ false → find fd m ≡ none
unfolding find contains
absent-find fd [] h = refl
absent-find fd ((j, v) ∷ m) h = ground (arith, absent-find fd m)

module _ (env : Env) (r : Request) (s : Server) where
  -- A login request is answered by a status, or is a login at a descriptor that was free.
  pub data LoginOutcome (result : Option Server) : Type 0 where
    answered : (status : StatusCode) → result ≡ some (queue_status r status s) → LoginOutcome result
    passed :
        (name : Bytes)
        → find r.client_fd s.authenticated_users_by_fd ≡ none
        → result ≡ login_as env r name s
        → LoginOutcome result

  pub handle_login-outcome : LoginOutcome (handle_login_command env r s)
  unfolding handle_login_command
  handle_login-outcome = elim (Bool-cases (not (r.payload_size == 32))) [
    | inl e ↦ rw e (answered _ refl)
    | inr e ↦ rw e (elim (Bool-cases (contains r.client_fd s.authenticated_users_by_fd)) [
      | inl f ↦ rw f (answered _ refl)
      | inr f ↦
          rw f
            (elim (Option-cases
              (extract_fixed_string (decode_req_login r.payload_data).user_name)) [
                | inl x ↦ rw x (answered _ refl)
                | inr (name, x) ↦ rw x (elim (Bool-cases (is_empty name)) [
                  | inl m ↦ rw m (answered _ refl)
                  | inr m ↦
                      rw m
                        (passed name (absent-find r.client_fd s.authenticated_users_by_fd f) refl)
                ])
              ])
    ])
  ]
