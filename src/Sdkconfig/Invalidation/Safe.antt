-- ===== src/Sdkconfig/Invalidation/Safe.antt =====
-- The hub of invalidation.go: which channels are open.
use flagstack.Sdkconfig.Types.{Credential}
use flagstack.Sdkconfig.Invalidation.{
  Hub, cancel, new_hub, publish, receive, remove, subscribe, Invalidation, Subscriber, assign,
  max_uint64, publish_to, update-other, Channel, invalidation_matches, Action, Cancel, buffered,
  run, update, act, update-same, subscribing, publishing, cancelling, receiving,
}
use flagstack.Common.{
  true-ne-false, [], ◌∷◌, ◌<◌, ◌≡◌, inl, inr, ok, false, refl, All, ℕ, List, Bool-cases, ◌%◌, ◌≢◌,
  none, arith, ◌∙◌, suc, All-map, eqb-cases, true, sym, ap, ltb,
}

-- An entry's channel is allocated and open, not cancelled yet, and captured with the entry's id.
abbrev IsLive : Hub → ℕ × Subscriber → Type 0
IsLive h (i, s) =
    (s.channel < h.allocated)
    × ((h.channels s.channel).closed ≡ false)
    × ((h.cancels s.channel).done ≡ false)
    × ((h.cancels s.channel).id ≡ i)

abbrev OpenUntilDone : Hub → Type 0
OpenUntilDone h = (a : ℕ) → (h.cancels a).done ≡ false → (h.channels a).closed ≡ false

abbrev pub IsValid : Hub → Type 0
IsValid h = All (IsLive h) h.subscribers × OpenUntilDone h

remove-All :
    (P : ℕ × Subscriber → Type 0) (id : ℕ) (m : List (ℕ × Subscriber))
    → All P m
    → All (λ e. P e × (e.0 ≢ id)) (remove id m)
unfolding remove
remove-All P id [] h = tt
remove-All P id ((i, s) ∷ m) (p, h) = elim (eqb-cases i id) [
  | inl (same, _) ↦ rw (same) (remove-All P id m h)
  | inr (other, ne) ↦ rw (other) ((p, ne), remove-All P id m h)
]

new_hub-IsValid : IsValid new_hub
new_hub-IsValid = (tt, λ a h. refl)

-- Storing a channel that is as open as the old one changes no channel's state.
update-closed :
    (channels : ℕ → Channel) (a : ℕ) (c : Channel)
    → c.closed ≡ (channels a).closed
    → (b : ℕ) → (update channels a c b).closed ≡ (channels b).closed
update-closed channels a c h b = elim (eqb-cases a b) [
  | inl (same, e) ↦ rw (same) (h ∙ ap (λ x. (channels x).closed) e)
  | inr (other, ne) ↦ rw (other)
]

subscribe-IsLive :
    (c : Credential) (h : Hub) (e : ℕ × Subscriber) → IsLive h e → IsLive (subscribe c h) e
unfolding subscribe
subscribe-IsLive c h (i, s) (below, is_open, waiting, id) =
    let ne : h.allocated ≢ s.channel = omega arith in
    let new : Channel = record { pending = none; closed = false } in
    let holder : Cancel = record { id = suc h.next_id % max_uint64; done = false } in
    let channel = update-other h.channels h.allocated new s.channel ne in
    let cancel = update-other h.cancels h.allocated holder s.channel ne in
    (
      omega arith,
      ap (λ x. x.closed) channel ∙ is_open,
      ap (λ x. x.done) cancel ∙ waiting,
      ap (λ x. x.id) cancel ∙ id,
    )

subscribe-IsValid : (c : Credential) (h : Hub) → IsValid h → IsValid (subscribe c h)
unfolding subscribe assign
subscribe-IsValid c h (live, fresh) =
    let id = suc h.next_id % max_uint64 in
    let new : Channel = record { pending = none; closed = false } in
    let holder : Cancel = record { id = id; done = false } in
    let channel = update-same h.channels h.allocated new in
    let cancel = update-same h.cancels h.allocated holder in
    (
      (
        (omega arith, ap (λ x. x.closed) channel, ap (λ x. x.done) cancel, ap (λ x. x.id) cancel),
        All-map (remove id h.subscribers) (λ e p. subscribe-IsLive c h e p.0)
            (remove-All (IsLive h) id h.subscribers live),
      ),
      λ a waiting. elim (eqb-cases h.allocated a) [
        | inl (same, _) ↦ rw (same)
        | inr (other, ne) ↦ rw (other) (fresh a (rw (other) at waiting))
      ],
    )

cancelled : ℕ → Hub → Hub
cancelled a h = record h {
  subscribers = remove (h.cancels a).id h.subscribers;
  channels = update h.channels a (record (h.channels a) { closed = true });
  cancels = update h.cancels a (record (h.cancels a) { done = true });
}

cancelled-IsLive :
    (a : ℕ) (h : Hub) (e : ℕ × Subscriber)
    → IsLive h e × (e.0 ≢ (h.cancels a).id)
    → IsLive (cancelled a h) e
unfolding cancelled
cancelled-IsLive a h (i, s) ((below, open_channel, waiting, id), ne) =
    elim (eqb-cases a s.channel) [
      | inl (_, e) ↦ absurd (ne (sym (ap (λ x. (h.cancels x).id) e ∙ id)))
      | inr (other, _) ↦ rw (other) (below, open_channel, waiting, id)
    ]

cancelled-IsValid : (a : ℕ) (h : Hub) → IsValid h → IsValid (cancelled a h)
unfolding cancelled
cancelled-IsValid a h (live, fresh) = (
  All-map (remove (h.cancels a).id h.subscribers) (cancelled-IsLive a h)
      (remove-All (IsLive h) (h.cancels a).id h.subscribers live),
  λ b waiting. elim (eqb-cases a b) [
    | inl (same, _) ↦ absurd (true-ne-false (rw (same) at waiting))
    | inr (other, _) ↦ rw (other) (fresh b (rw (other) at waiting))
  ],
)

cancel-IsValid : (a : ℕ) (h : Hub) → IsValid h → (h' : Hub) × (cancel a h ≡ ok h') × IsValid h'
unfolding cancel cancelled
cancel-IsValid a h (live, fresh) = elim (Bool-cases (h.cancels a).done) [
  | inl done ↦ (h, rw (done), (live, fresh))
  | inr waiting ↦
      (cancelled a h, rw (waiting, fresh a waiting), cancelled-IsValid a h (live, fresh))
]

receive-IsValid : (a : ℕ) (h : Hub) → IsValid h → IsValid (receive a h)
unfolding receive
receive-IsValid a h (live, fresh) =
    let same = update-closed h.channels a (record (h.channels a) { pending = none }) refl in
    (
      All-map h.subscribers (λ e p. (p.0, same e.1.channel ∙ p.1, p.2, p.3)) live,
      λ b waiting. same b ∙ fresh b waiting,
    )

publish_to-closed :
    (v : Invalidation) (subscribers : List (ℕ × Subscriber)) (channels : ℕ → Channel)
    → All (λ e. (channels (e.1.channel)).closed ≡ false) subscribers
    → (channels' : ℕ → Channel) × (publish_to v subscribers channels ≡ ok channels')
      × ((a : ℕ) → (channels' a).closed ≡ (channels a).closed)
unfolding publish_to
publish_to-closed v [] channels h = (channels, refl, λ a. refl)
publish_to-closed v ((i, s) ∷ rest) channels (p, h) =
    elim (Bool-cases (invalidation_matches s.credential v)) [
      | inr other ↦ rw (other, publish_to) (publish_to-closed v rest channels h)
      | inl matched ↦
          let c : Channel = record {
            pending = buffered v (channels s.channel).pending;
            closed = false;
          } in
          let same = update-closed channels s.channel c (sym p) in
          let (channels', sent, later) =
            publish_to-closed v rest (update channels s.channel c)
              (All-map rest (λ e q. same e.1.channel ∙ q) h) in
          (channels', rw (matched, publish_to, p) (sent), λ a. later a ∙ same a)
    ]

publish-IsValid :
    (v : Invalidation) (h : Hub) → IsValid h → (h' : Hub) × (publish v h ≡ ok h') × IsValid h'
unfolding publish
publish-IsValid v h (live, fresh) =
    let (channels', sent, same) =
      publish_to-closed v h.subscribers h.channels (All-map h.subscribers (λ e p. p.1) live) in
    (
      record h { channels = channels' },
      rw (sent),
      (
        All-map h.subscribers (λ e p. (p.0, same e.1.channel ∙ p.1, p.2, p.3)) live,
        λ a waiting. same a ∙ fresh a waiting,
      ),
    )

act-IsValid : (a : Action) (h : Hub) → IsValid h → (h' : Hub) × (act a h ≡ ok h') × IsValid h'
act-IsValid (subscribing c) h valid = (subscribe c h, refl, subscribe-IsValid c h valid)
act-IsValid (publishing v) h valid = publish-IsValid v h valid
act-IsValid (cancelling a) h valid = elim (Bool-cases (ltb a h.allocated)) [
  | inl held ↦ rw (held) (cancel-IsValid a h valid)
  | inr free ↦ (h, rw (free), valid)
]
act-IsValid (receiving a) h valid = elim (Bool-cases (ltb a h.allocated)) [
  | inl held ↦ (receive a h, rw (held), receive-IsValid a h valid)
  | inr free ↦ (h, rw (free), valid)
]

run-IsValid :
    (actions : List Action) (h : Hub)
    → IsValid h
    → (h' : Hub) × (run actions h ≡ ok h') × IsValid h'
unfolding run
run-IsValid [] h valid = (h, refl, valid)
run-IsValid (a ∷ rest) h valid =
    let (h1, first, valid1) = act-IsValid a h valid in
    let (h2, later, valid2) = run-IsValid rest h1 valid1 in (h2, rw (first) (later), valid2)

-- No sequence of subscriptions, cancellations, receptions and publications on a new hub panics, by
-- a send on a closed channel or a second close, even where the ids wrap around; and behind it every
-- subscriber that the hub still holds has an open channel.
pub run-NoPanic :
    (actions : List Action)
    → (h : Hub) × (run actions new_hub ≡ ok h)
      × All (λ e. (h.channels e.1.channel).closed ≡ false) h.subscribers
run-NoPanic actions =
    let (h, done, valid) = run-IsValid actions new_hub new_hub-IsValid in
    (h, done, All-map h.subscribers (λ e p. p.1) valid.0)
