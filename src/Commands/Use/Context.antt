-- ===== src/Commands/Use/Context.antt =====
-- The context that CMD_USE sets is the one that the other handlers read.
use teams_mirror.Prelude.{
  ℕ, suc, tests, ◌-◌, ◌≤◌, ◌≡◌, refl, ◌∙◌, ap, subst, Bool, true, false, not, ◌&&◌, ◌==◌, Option,
  none, some, [], ◌∷◌, ◌++◌, arith, if◌then◌else◌, ltb, length, take_all, some_inj, Option-cases,
  Bool-cases, inl, inr, nat_eq, bytes_eq, ◌>>=◌,
}
use teams_mirror.Bytes.{Bytes, NoNul, extract_fixed_string}
use teams_mirror.Bytes.Buffer.{view-append}
use teams_mirror.Map.{find, contains, find-adjust}
use teams_mirror.Fields.{zeroed}
use teams_mirror.Protocol.{rpl_ok}
use teams_mirror.Protocol.Requests.{decode_req_use, decode_req_team_target}
use teams_mirror.Clients.{
  Client, ClientManager, copy_uuid, read_uuid, set_client_context, set_context, queue_data_to_send,
  get_context_team_uuid, get_context_channel_uuid, get_context_thread_uuid,
}
use teams_mirror.Packet.{status_packet}
use teams_mirror.Server.{Server, Request, queue_status, queue_packet}
use teams_mirror.Server.Uuid.Format.{valid_parts}
use teams_mirror.Commands.Lookup.{is_context_combination_valid}
use teams_mirror.Commands.Use.{extract_optional_uuid, parse_use_payload, handle_use_command}

-- An identifier that fits the array of a context, with its terminator.
abbrev FitsContext : Bytes → Type 0
FitsContext s = NoNul s × (length s ≤ 36)

extract-FitsContext : (b s : Bytes) → extract_optional_uuid b ≡ some s → FitsContext s
unfolding extract_optional_uuid
extract-FitsContext [] s h = absurd (ground arith)
extract-FitsContext (c ∷ b) s h = elim (Bool-cases (c == 0)) [
  | inl z ↦ ground arith
  | inr z ↦ elim (Option-cases (extract_fixed_string (c ∷ b))) [
    | inl e ↦ ground arith
    | inr (t, e) ↦ ground (arith, valid_parts t)
  ]
]

cut :
    (d s : Bytes)
    → length d ≡ 37
    → FitsContext s
    → copy_uuid d s ≡ s ++ (0 ∷ zeroed (36 - length s))
unfolding copy_uuid
cut d s size (clean, fits) = elim (Bool-cases (ltb (length s) (length d - 1))) [
  | inl e ↦
      rw (e, copy_uuid, take_all (length s) s (omega arith))
        (ap (λ n. s ++ zeroed n) (all_but_one (length s) (omega arith)))
  | inr e ↦
      rw (e, copy_uuid, take_all (length d - 1) s (omega arith))
        (ap (λ n. s ++ zeroed n) (all_but_one (length d - 1) (omega (arith, tests, e))))
]
  where
    all_but_one : (n : ℕ) → n ≡ length s → length d - n ≡ suc (36 - length s)
    all_but_one n h = omega arith

read-copy_uuid : (d s : Bytes) → length d ≡ 37 → FitsContext s → read_uuid (copy_uuid d s) ≡ s
unfolding read_uuid
read-copy_uuid d s size (clean, fits) = rw (cut d s size (clean, fits)) (view-append s _ clean)

module _ (fd : ℕ) (a b c : Bytes) (m : ClientManager) (client : Client)
    (here : find fd m ≡ some client) where
  find-set_context : find fd (set_context fd a b c m) ≡ some (set_client_context a b c client)
  unfolding set_context
  find-set_context = find-adjust fd fd (set_client_context a b c) m ∙ ground (arith, here)

find-queue :
    (fd : ℕ) (p : Bytes) (m : ClientManager) (client : Client)
    → find fd m ≡ some client
    → find fd (queue_data_to_send fd p m)
      ≡ some (record client { outgoing_buffer = client.outgoing_buffer ++ p })
unfolding queue_data_to_send
find-queue fd p m client here =
    find-adjust fd fd (λ c. record c { outgoing_buffer = c.outgoing_buffer ++ p }) m
    ∙ ground (arith, here)

-- A step that gave something, and what it gave to the rest.
bind-some :
    {A B : Type 0} (o : Option A) (f : A → Option B) (b : B)
    → (o >>= f) ≡ some b
    → (a : A) × (o ≡ some a) × (f a ≡ some b)
bind-some none f b h = absurd (ground arith)
bind-some (some a) f b h = (a, refl, h)

abbrev AllFit : Bytes × Bytes × Bytes → Type 0
AllFit (team, channel, thread) = FitsContext team × FitsContext channel × FitsContext thread

team_only-AllFit :
    (b : Bytes) (ids : Bytes × Bytes × Bytes)
    → (extract_optional_uuid b >>= λ team_uuid. some (team_uuid, [], [])) ≡ some ids
    → AllFit ids
team_only-AllFit b ids h =
    let (team, first, done) = bind-some (extract_optional_uuid b) _ ids h in
    subst AllFit (some_inj done)
      (extract-FitsContext b team first, (tt, ground arith), (tt, ground arith))

if_some : {A : Type 0} (t : Bool) (a b : A) → (if t then some a else none) ≡ some b → a ≡ b
if_some true a b h = some_inj h
if_some false a b h = absurd (ground arith)

all_three-AllFit :
    (a b c : Bytes) (ids : Bytes × Bytes × Bytes)
    → (extract_optional_uuid a >>= λ team. extract_optional_uuid b >>= λ channel.
        extract_optional_uuid c >>= λ thread.
        if is_context_combination_valid team channel thread
        then some (team, channel, thread)
        else none)
      ≡ some ids
    → AllFit ids
all_three-AllFit a b c ids h =
    let (team, first, rest) = bind-some (extract_optional_uuid a) _ ids h in
    let (channel, second, rest') = bind-some (extract_optional_uuid b) _ ids rest in
    let (thread, third, last) = bind-some (extract_optional_uuid c) _ ids rest' in
    subst AllFit
      (if_some (is_context_combination_valid team channel thread) (team, channel, thread) ids last)
      (
        extract-FitsContext a team first,
        extract-FitsContext b channel second,
        extract-FitsContext c thread third,
      )

parse-AllFit :
    (r : Request) (ids : Bytes × Bytes × Bytes) → parse_use_payload r ≡ some ids → AllFit ids
unfolding parse_use_payload
parse-AllFit r ids h = elim (Bool-cases (r.payload_size == 37)) [
  | inl e ↦ team_only-AllFit (decode_req_team_target r.payload_data).team_uuid ids (rw e at h)
  | inr e ↦
      all_three-AllFit (decode_req_use r.payload_data).team_uuid
        (decode_req_use r.payload_data).channel_uuid (decode_req_use r.payload_data).thread_uuid ids
        (rw e at h)
]

-- The arrays of a client's context have their declared size.
pub record ContextSized (c : Client) : Type 0 where
  pub team_sized : length c.ctx_team_uuid ≡ 37
  pub channel_sized : length c.ctx_channel_uuid ≡ 37
  pub thread_sized : length c.ctx_thread_uuid ≡ 37

-- CMD_USE of a client that is logged in and whose context arrays have their size, with a payload of one of the two
-- sizes that is accepted, answers RPL_OK,
-- and every later handler reads the three identifiers of the payload as the context of the client.
pub handle_use-context :
    (r : Request) (s : Server) (client : Client) (team channel thread : Bytes)
    → (not (r.payload_size == 37) && not (r.payload_size == 111)) ≡ false
    → contains r.client_fd s.authenticated_users_by_fd ≡ true
    → find r.client_fd s.clients ≡ some client
    → ContextSized client
    → parse_use_payload r ≡ some (team, channel, thread)
    → (answered : Server) × (handle_use_command r s ≡ queue_status r rpl_ok answered)
      × (get_context_team_uuid r.client_fd (handle_use_command r s).clients ≡ team)
      × (get_context_channel_uuid r.client_fd (handle_use_command r s).clients ≡ channel)
      × (get_context_thread_uuid r.client_fd (handle_use_command r s).clients ≡ thread)
unfolding handle_use_command queue_status queue_packet set_client_context get_context_team_uuid
    get_context_channel_uuid get_context_thread_uuid
handle_use-context r s client team channel thread size logged here sized parsed =
    simp (size, logged, parsed)
      (rw
        (find-queue r.client_fd (status_packet rpl_ok []) _ _
          (find-set_context r.client_fd team channel thread s.clients client here))
        (
          _,
          refl,
          read-copy_uuid client.ctx_team_uuid team sized.team_sized fits.0,
          read-copy_uuid client.ctx_channel_uuid channel sized.channel_sized fits.1,
          read-copy_uuid client.ctx_thread_uuid thread sized.thread_sized fits.2,
        ))
  where
    fits : FitsContext team × FitsContext channel × FitsContext thread
    fits = parse-AllFit r (team, channel, thread) parsed
