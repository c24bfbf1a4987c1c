-- ===== src/Publish/Queue.antt =====
-- A request of the subscription queue succeeds if one of its attempts does.
use tuna.Publish.{
  max_retry, SubscribeData, SubscribeClient, Attempts, with_nonce, prepare, attempt,
  handle_subscription,
}
use tuna.Common.{
  ℕ, zero, suc, ◌+◌, ◌≤◌, ◌<◌, ◌≡◌, refl, sym, ◌∙◌, subst, ◌≢◌, ◌↔◌, inl, inr, Bool, true, Option,
  some, arith, if◌then◌else◌, Bool-cases, Option-cases, option_ind, ◌>>=◌, >>=-eq-some, length,
}

-- the attempt with this number has its nonce, and the client takes the request
abbrev pub Accepts : SubscribeClient → SubscribeData → ℕ → Type 0
Accepts client d i =
    (d' : SubscribeData) × (prepare client i d ≡ some d') × (client.subscribe i d' ≡ true)

some_inj : {A : Type 0} {a b : A} → some a ≡ some b → a ≡ b
some_inj h = cc

-- a request is prepared in the same way after an attempt as before
prepare-prepare :
    (client : SubscribeClient) (i j : ℕ) (d d' : SubscribeData)
    → prepare client i d ≡ some d'
    → prepare client j d' ≡ prepare client j d
unfolding prepare with_nonce
prepare-prepare client i j d d' h = elim (Bool-cases d.replace_tx_pool) [
  | inr kept ↦
      let same : d ≡ d' = some_inj (subst (λ b. prepare_if b ≡ some d') kept h) in
      subst (λ x. prepare client j x ≡ prepare client j d) same refl
  | inl replaced ↦
      let (nonce, _, e) =
        >>=-eq-some (client.get_nonce i) _ (subst (λ b. prepare_if b ≡ some d') replaced h) in
      subst (λ x. prepare client j x ≡ prepare client j d) (some_inj e) (rw replaced refl)
]
  where
    prepare_if : Bool → Option SubscribeData
    prepare_if b = if b then (do nonce ← client.get_nonce i; some (with_nonce d nonce)) else some d

attempt-Accepts :
    (left : ℕ) (client : SubscribeClient) (i : ℕ) (d : SubscribeData)
    → (attempt left client i d).success ≡ true
    → (j : ℕ) × (i ≤ j) × (j < i + left) × Accepts client d j
unfolding attempt
attempt-Accepts zero client i d h = cc
attempt-Accepts (suc left) client i d h = elim (Option-cases (prepare client i d)) [
  | inl e ↦
      let (j, le, lt, acc) = attempt-Accepts left client (i + 1) d (rw (attempt, e) at h) in
      (j, omega arith, omega arith, acc)
  | inr (d', e) ↦ elim (Bool-cases (client.subscribe i d')) [
    | inl f ↦ (i, omega arith, omega arith, (d', e, f))
    | inr f ↦
        let (j, le, lt, (d'', e', g)) =
          attempt-Accepts left client (i + 1) d' (rw (attempt, e, f) at h) in
        (j, omega arith, omega arith, (d'', sym (prepare-prepare client i j d d' e) ∙ e', g))
  ]
]

Accepts-attempt :
    (left : ℕ) (client : SubscribeClient) (i j : ℕ) (d : SubscribeData)
    → i ≤ j
    → j < i + left
    → Accepts client d j
    → (attempt left client i d).success ≡ true
unfolding attempt
Accepts-attempt zero client i j d le lt h = absurd (omega arith)
Accepts-attempt (suc left) client i j d le lt (a, ea, fa) =
    elim (Option-cases (prepare client i d)) [
      | inl e ↦
          let ne : i ≢ j = λ s. cc in
          rw (attempt, e)
            (Accepts-attempt left client (i + 1) j d (omega arith) (omega arith) (a, ea, fa))
      | inr (d', e) ↦ elim (Bool-cases (client.subscribe i d')) [
        | inl f ↦ rw (attempt, e, f) refl
        | inr f ↦
            let ne : i ≢ j = λ s. cc in
            rw (attempt, e, f)
              (Accepts-attempt left client (i + 1) j d' (omega arith) (omega arith)
                (a, prepare-prepare client i j d d' e ∙ ea, fa))
      ]
    ]

length-attempt :
    (left : ℕ) (client : SubscribeClient) (i : ℕ) (d : SubscribeData)
    → length (attempt left client i d).sent ≤ left
unfolding attempt
length-attempt zero client i d = omega arith
length-attempt (suc left) client i d =
    option_ind (λ (a : Attempts). length a.sent ≤ suc left) (prepare client i d)
      (λ _. omega (arith, length-attempt left client (i + 1) d))
      λ d' _. elim (Bool-cases (client.subscribe i d')) [
        | inl f ↦ rw f (omega arith)
        | inr f ↦ rw f (omega (arith, length-attempt left client (i + 1) d'))
      ]

-- Whatever the client answers, the worker sends a request at most three times, and the request
-- succeeds exactly if at one of the first three attempts the nonce comes, where one is wanted, and the
-- client takes the request, with that nonce. The nonces of earlier attempts do not matter.
pub handle_subscription-Accepts :
    (client : SubscribeClient) (d : SubscribeData)
    → (length (handle_subscription client d).sent ≤ max_retry)
      × (((handle_subscription client d).success ≡ true)
          ↔ ((i : ℕ) × (i < max_retry) × Accepts client d i))
unfolding handle_subscription
handle_subscription-Accepts client d = (
  length-attempt max_retry client 0 d,
  (
    λ h. let (j, _, lt, acc) = attempt-Accepts max_retry client 0 d h in (j, omega arith, acc),
    λ (j, lt, acc). Accepts-attempt max_retry client 0 j d (omega arith) (omega arith) acc,
  ),
)
