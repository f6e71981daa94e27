-- ===== src/Dispatcher/Table.antt =====
-- The table of the handlers and the codes of the commands (server/commands/command_dispatcher.cpp).
use teams_mirror.Prelude.{
  ℕ, ◌≡◌, ◌≢◌, ◌⊎◌, refl, sym, ◌∙◌, ap, ◌==◌, ==_iff, Bool, some, List, [], ◌∷◌, All, arith,
  find_if, find_if-holds, Bool-cases, Option-cases, inl, inr, some_inj, subst, nat_eq,
}
use teams_mirror.Protocol.{
  CommandId, cmd_login, cmd_logout, cmd_users, cmd_user_info, cmd_send, cmd_messages, cmd_subscribe,
  cmd_unsubscribe, cmd_subscribed_list, cmd_use, cmd_create, cmd_list, cmd_info, command_code,
  err_bad_request,
}
use teams_mirror.Server.{Env, Server, Request, queue_status}
use teams_mirror.Dispatcher.{
  CommandHandler, find_handler, command_handlers, run_handler, dispatch_command,
}

registered :
    (c : CommandId)
    → find_handler (command_code c) ≡ some (command_code c, λ env. run_handler env c)
unfolding find_handler find_if command_code run_handler
registered cmd_login = refl
registered cmd_logout = refl
registered cmd_users = refl
registered cmd_user_info = refl
registered cmd_send = refl
registered cmd_messages = refl
registered cmd_subscribe = refl
registered cmd_unsubscribe = refl
registered cmd_subscribed_list = refl
registered cmd_use = refl
registered cmd_create = refl
registered cmd_list = refl
registered cmd_info = refl

-- Every entry of the table has the code of a command.
codes_known : All (λ entry. (c : CommandId) × (entry.0 ≡ command_code c)) command_handlers
codes_known = (
  (cmd_login, refl),
  (
    (cmd_users, refl),
    (
      (cmd_user_info, refl),
      (
        (cmd_info, refl),
        (
          (cmd_logout, refl),
          (
            (cmd_use, refl),
            (
              (cmd_create, refl),
              (
                (cmd_list, refl),
                (
                  (cmd_subscribe, refl),
                  (
                    (cmd_unsubscribe, refl),
                    ((cmd_subscribed_list, refl), ((cmd_messages, refl), ((cmd_send, refl), tt))),
                  ),
                ),
              ),
            ),
          ),
        ),
      ),
    ),
  ),
)

All-find_if :
    {A : Type 0} (P : A → Type 0) (p : A → Bool) (xs : List A) (a : A)
    → All P xs
    → find_if p xs ≡ some a
    → P a
unfolding find_if
All-find_if P p [] a h e = absurd (ground arith)
All-find_if P p (x ∷ xs) a (here, more) e = elim (Bool-cases (p x)) [
  | inl t ↦ subst P (some_inj (rw t at e)) here
  | inr f ↦ All-find_if P p xs a more (rw f at e)
]

found_code :
    (code : ℕ) (entry : ℕ × CommandHandler)
    → find_handler code ≡ some entry
    → (c : CommandId) × (code ≡ command_code c)
unfolding find_handler
found_code code entry h =
    let (c, known) =
      All-find_if (λ e. (c : CommandId) × (e.0 ≡ command_code c)) (λ e. e.0 == code)
        command_handlers entry codes_known h in
    (
      c,
      sym ((==_iff entry.0 code).0 (find_if-holds (λ e. e.0 == code) command_handlers entry h))
          ∙ known,
    )

module _ (env : Env) (r : Request) (s : Server) where
  dispatch-registered :
      (c : CommandId) → dispatch_command env (command_code c) r s ≡ run_handler env c r s
  unfolding dispatch_command
  dispatch-registered c = rw (registered c, dispatch_command) refl

  -- The code of each command runs that command's own handler, whichever the order of the table; and a code that no
  -- command has is answered with ERR_BAD_REQUEST, and changes nothing else.
  pub dispatch_command-exact :
      (code : ℕ)
      → ((c : CommandId) × (code ≡ command_code c)
          × (dispatch_command env code r s ≡ run_handler env c r s))
        ⊎ (((c : CommandId) → code ≢ command_code c)
            × (dispatch_command env code r s ≡ some (queue_status r err_bad_request s)))
  unfolding dispatch_command
  dispatch_command-exact code = elim (Option-cases (find_handler code)) [
    | inl e ↦ inr (
      (λ c h. absurd (ground (arith, sym e ∙ ap find_handler h ∙ registered c))),
      rw (e, dispatch_command) refl,
    )
    | inr (entry, e) ↦
        let (c, h) = found_code code entry e in
        inl (c, h, ap (λ k. dispatch_command env k r s) h ∙ dispatch-registered c)
  ]
