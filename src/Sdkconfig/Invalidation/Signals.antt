-- ===== src/Sdkconfig/Invalidation/Signals.antt =====
-- `Publish` of invalidation.go: the signals in the channels.
use flagstack.Sdkconfig.Invalidation.{
  Invalidation, publish_to, Subscriber, buffered, Channel, invalidation_matches, try_send, update,
  publish, Hub,
}
use flagstack.Common.{
  [], ◌∷◌, ◌&&◌, ◌||◌, ◌≡◌, ok, true, false, ℕ, Bool, List, Option, eqb, inl, inr, sym, ap, ok-inj,
  Bool-cases, >>=-eq-ok, some, none, refl, ◌∙◌, eqb-cases, err-ne-ok,
}

-- Some subscriber that an invalidation matches reads from a channel.
unfoldable pub reaches : Invalidation → List (ℕ × Subscriber) → ℕ → Bool
reaches invalidation [] a = false
reaches invalidation ((i, s) ∷ rest) a =
    (invalidation_matches s.credential invalidation && eqb s.channel a)
    || reaches invalidation rest a

abbrev after : Invalidation → Bool → Option Invalidation → Option Invalidation
after invalidation true old = buffered invalidation old
after invalidation false old = old

after-buffered :
    (v : Invalidation) (b : Bool) (old : Option Invalidation)
    → after v b (buffered v old) ≡ buffered v old
after-buffered v false old = refl
after-buffered v true none = refl
after-buffered v true (some w) = refl

try_send-pending :
    (v : Invalidation) (c c' : Channel) → try_send v c ≡ ok c' → c'.pending ≡ buffered v c.pending
try_send-pending v c c' h = elim (Bool-cases c.closed) [
  | inl closed ↦ absurd (err-ne-ok (rw (closed) at h))
  | inr alive ↦ ap (λ x. x.pending) (sym (ok-inj (rw (alive) at h)))
]

publish_to-pending :
    (invalidation : Invalidation) (subscribers : List (ℕ × Subscriber))
    (channels channels' : ℕ → Channel)
    → publish_to invalidation subscribers channels ≡ ok channels'
    → (a : ℕ)
    → (channels' a).pending
      ≡ after invalidation (reaches invalidation subscribers a) (channels a).pending
unfolding publish_to reaches
publish_to-pending v [] channels channels' h a = ap (λ f. (f a).pending) (sym (ok-inj h))
publish_to-pending v ((i, s) ∷ rest) channels channels' h a =
    elim (Bool-cases (invalidation_matches s.credential v)) [
      | inr other ↦
          rw (other) (publish_to-pending v rest channels channels' (rw (other, publish_to) at h) a)
      | inl matched ↦
          let (c, sent, later) =
            >>=-eq-ok (try_send v (channels s.channel)) _ (rw (matched, publish_to) at h) in
          let next = publish_to-pending v rest (update channels s.channel c) channels' later a in
          let full = try_send-pending v (channels s.channel) c sent in
          elim (eqb-cases s.channel a) [
            | inr (other, _) ↦ rw (matched, other) (rw (other) at next)
            | inl (same, e) ↦
                rw (matched, same)
                  (rw (same) at next
                    ∙ ap (after v (reaches v rest a)) full
                    ∙ after-buffered v (reaches v rest a) (channels s.channel).pending
                    ∙ ap (λ b. buffered v (channels b).pending) e)
          ]
    ]

-- A publication that returns leaves every channel with the signal that was already pending, or, if
-- none was and the channel is one of a subscriber that the invalidation matches, with the new one.
pub publish-pending :
    (invalidation : Invalidation) (h h' : Hub)
    → publish invalidation h ≡ ok h'
    → (a : ℕ)
    → (h'.channels a).pending
      ≡ after invalidation (reaches invalidation h.subscribers a) (h.channels a).pending
unfolding publish
publish-pending invalidation h h' done a =
    let (channels', sent, same) =
      >>=-eq-ok (publish_to invalidation h.subscribers h.channels) _ done in
    ap (λ x. (x.channels a).pending) (sym (ok-inj same))
    ∙ publish_to-pending invalidation h.subscribers h.channels channels' sent a
