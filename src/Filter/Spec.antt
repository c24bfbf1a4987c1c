-- ===== src/Filter/Spec.antt =====
-- What `NknFilter.IsAllow` decides, said without loops.
use tuna.Filter.{
  NknClient, NknFilter, client_empty, match_client, is_allow, has_match, allow_loop, only_empty,
  filter_empty,
}
use tuna.Common.{
  ◌≡◌, refl, ◌≢◌, ◌↔◌, ◌⊎◌, inl, inr, Bool, true, false, Option, none, some, List, [], ◌∷◌, arith,
  Bool-cases, All, Any, text_eq_iff,
}

-- an entry of a list with an address, and that address is the client's
abbrev pub Names : NknClient → NknClient → Type 0
Names c entry = (entry.address ≢ []) × (c.address ≡ entry.address)

-- an entry with neither an address nor metadata
abbrev pub IsBlank : NknClient → Type 0
IsBlank entry = (entry.address ≡ []) × (entry.metadata ≡ [])

abbrev pub Allowed : NknFilter → NknClient → Type 0
Allowed f c = (¬ Any (Names c) f.disallow) × (Any (Names c) f.allow ⊎ All IsBlank f.allow)

match→Names : (entry c : NknClient) → match_client entry c ≡ true → Names c entry
unfolding match_client
match→Names entry c h = ground (arith, text_eq_iff c.address entry.address)

Names→match : (entry c : NknClient) → Names c entry → match_client entry c ≡ true
unfolding match_client
Names→match entry c h = ground (arith, text_eq_iff c.address entry.address)

empty→IsBlank : (c : NknClient) → client_empty (some c) ≡ true → IsBlank c
unfolding client_empty
empty→IsBlank c h = ground (arith, text_eq_iff c.address [], text_eq_iff c.metadata [])

IsBlank→empty : (c : NknClient) → IsBlank c → client_empty (some c) ≡ true
unfolding client_empty
IsBlank→empty c h = ground (arith, text_eq_iff c.address [], text_eq_iff c.metadata [])

has_match→Any : (l : List NknClient) (c : NknClient) → has_match l c ≡ true → Any (Names c) l
unfolding has_match
has_match→Any [] c h = cc
has_match→Any (d ∷ ds) c h = elim (Bool-cases (match_client d c)) [
  | inl e ↦ inl (match→Names d c e)
  | inr e ↦ inr (has_match→Any ds c (rw e at h))
]

Any→has_match : (l : List NknClient) (c : NknClient) → Any (Names c) l → has_match l c ≡ true
unfolding has_match
Any→has_match [] c h = absurd h
Any→has_match (d ∷ ds) c (inl n) = rw (Names→match d c n)
Any→has_match (d ∷ ds) c (inr m) = ground (arith, Any→has_match ds c m)

-- The loop passes the client if an entry names it, or if no entry seen, here or before, is filled in.
loop→Any :
    (l : List NknClient) (c : NknClient) (e : Bool)
    → allow_loop l c e ≡ true
    → Any (Names c) l ⊎ ((e ≡ true) × All IsBlank l)
unfolding allow_loop
loop→Any [] c e h = inr (h, tt)
loop→Any (a ∷ as') c e h = elim (Bool-cases (match_client a c)) [
  | inl m ↦ inl (inl (match→Names a c m))
  | inr m ↦ elim (Bool-cases (client_empty (some a))) [
    | inl b ↦ elim (loop→Any as' c e (rw (m, b) at h)) [
      | inl found ↦ inl (inr found)
      | inr (p, blank) ↦ inr (p, (empty→IsBlank a b, blank))
    ]
    | inr b ↦ elim (loop→Any as' c false (rw (m, b) at h)) [
      | inl found ↦ inl (inr found)
      | inr (p, blank) ↦ cc
    ]
  ]
]

Any→loop :
    (l : List NknClient) (c : NknClient) (e : Bool) → Any (Names c) l → allow_loop l c e ≡ true
unfolding allow_loop
Any→loop [] c e h = absurd h
Any→loop (a ∷ as') c e (inl n) = rw (Names→match a c n)
Any→loop (a ∷ as') c e (inr m) = ground (arith, Any→loop as' c e m, Any→loop as' c false m)

blank→loop : (l : List NknClient) (c : NknClient) → All IsBlank l → allow_loop l c true ≡ true
unfolding allow_loop
blank→loop [] c h = refl
blank→loop (a ∷ as') c (b, bs) = ground (arith, IsBlank→empty a b, blank→loop as' c bs)

is_allow→Allowed :
    (f : NknFilter) (c : NknClient)
    → c.address ≢ []
    → is_allow (some f) (some c) ≡ true
    → Allowed f c
unfolding is_allow
is_allow→Allowed f c ne h = elim (Bool-cases (client_empty (some c))) [
  | inl e ↦ absurd (ne (empty→IsBlank c e).0)
  | inr e ↦ elim (Bool-cases (has_match f.disallow c)) [
    | inl d ↦ cc (rw (e, d) at h)
    | inr d ↦ (
      λ a. cc (Any→has_match f.disallow c a),
      elim (loop→Any f.allow c true (rw (e, d) at h)) [
        | inl found ↦ inl found
        | inr (_, blank) ↦ inr blank
      ],
    )
  ]
]

Allowed→is_allow : (f : NknFilter) (c : NknClient) → Allowed f c → is_allow (some f) (some c) ≡ true
unfolding is_allow
Allowed→is_allow f c (free, listed) = elim (Bool-cases (has_match f.disallow c)) [
  | inl d ↦ absurd (free (has_match→Any f.disallow c d))
  | inr d ↦ elim listed [
    | inl found ↦ ground (arith, d, Any→loop f.allow c true found)
    | inr blank ↦ ground (arith, d, blank→loop f.allow c blank)
  ]
]

-- For a client with an address, `IsAllow` is true exactly when no entry of the disallow list has
-- that address, and an entry of the allow list has it or every entry of the allow list is blank.
pub is_allow-Allowed :
    (f : NknFilter) (c : NknClient)
    → c.address ≢ []
    → (is_allow (some f) (some c) ≡ true) ↔ Allowed f c
is_allow-Allowed f c ne = (is_allow→Allowed f c ne, Allowed→is_allow f c)

only_empty→blank : (l : List NknClient) → only_empty l ≡ true → All IsBlank l
unfolding only_empty
only_empty→blank [] h = tt
only_empty→blank (a ∷ as') h = elim (Bool-cases (client_empty (some a))) [
  | inl b ↦ (empty→IsBlank a b, only_empty→blank as' (rw b at h))
  | inr b ↦ cc (rw b at h)
]

blank-no-match : (l : List NknClient) (c : NknClient) → All IsBlank l → ¬ Any (Names c) l
blank-no-match [] c bs h = h
blank-no-match (a ∷ as') c (b, bs) (inl n) = n.0 b.0
blank-no-match (a ∷ as') c (b, bs) (inr m) = blank-no-match as' c bs m

-- A filter that `Empty` reports empty, a nil one included, lets every client through.
is_allow-filter_empty :
    (f : Option NknFilter) (c : Option NknClient) → filter_empty f ≡ true → is_allow f c ≡ true
unfolding filter_empty
is_allow-filter_empty none c h = unfold is_allow in refl
is_allow-filter_empty (some f) none h = unfold is_allow in refl
is_allow-filter_empty (some f) (some c) h =
    let a : only_empty f.allow ≡ true = ground arith in
    let d : only_empty f.disallow ≡ true = ground arith in
    Allowed→is_allow f c (
      blank-no-match f.disallow c (only_empty→blank f.disallow d),
      inr (only_empty→blank f.allow a),
    )
