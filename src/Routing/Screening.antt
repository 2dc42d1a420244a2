-- ===== src/Routing/Screening.antt =====
-- Which servers `_update` of src/drift/client/routing/sequence_manager.py leaves to a block.
use community_ai.Prelude.{
  ℕ, ◌≡◌, ◌≤◌, ◌⊎◌, ◌↔◌, inl, inr, Bool, true, false, not, ◌&&◌, Option, none, some, List, [], ◌∷◌,
  ltb, length, count, Bool-cases, arith, refl, sym, subst, ltb→ge, Float,
}
use community_ai.Routing.Spans.{ServerInfo}
use community_ai.Routing.Update.{
  is_listed, is_allowed, is_blocked, servers_of, or_all, without_banned, screen_servers,
}

-- The allow list, if there is one, names a peer.
abbrev pub Permits : Option (List ℕ) → ℕ → Type 0
Permits none p = Unit
Permits (some ps) p = 1 ≤ count p ps

-- There is a block list, and it names a peer.
abbrev pub Bars : Option (List ℕ) → ℕ → Type 0
Bars none p = ⊥
Bars (some ps) p = 1 ≤ count p ps

is_listed-count : (p : ℕ) (ps : List ℕ) → is_listed p ps ≡ ltb 0 (count p ps)
unfolding is_listed
is_listed-count p [] = refl
is_listed-count p (q ∷ qs) = ground (arith, is_listed-count p qs)

allowed-Permits : (ps : Option (List ℕ)) (p : ℕ) → (is_allowed ps p ≡ true) ↔ Permits ps p
unfolding is_allowed
allowed-Permits none p = (λ h. tt, λ h. refl)
allowed-Permits (some ps) p =
    (let listed = is_listed-count p ps in
      (λ h. ground (arith, listed, h), λ h. ground (arith, listed, h)))

blocked-Bars : (ps : Option (List ℕ)) (p : ℕ) → (is_blocked ps p ≡ true) ↔ Bars ps p
unfolding is_blocked
blocked-Bars none p = (λ h. absurd cc, λ h. absurd h)
blocked-Bars (some ps) p =
    (let listed = is_listed-count p ps in
      (λ h. ground (arith, listed, h), λ h. ground (arith, listed, h)))

true_or_false : {b : Bool} → b ≡ true → b ≡ false → ⊥
true_or_false h k = cc

module _ (F : Float) where
  abbrev pub IsIn : ℕ × ServerInfo F → List (ℕ × ServerInfo F) → Type 0
  IsIn s [] = ⊥
  IsIn s (t ∷ ts) = (t ≡ s) ⊎ IsIn s ts

  servers_of-IsIn :
      (test : ℕ → Bool) (s : ℕ × ServerInfo F) (servers : List (ℕ × ServerInfo F))
      → IsIn s (servers_of F test servers)
      → IsIn s servers × (test s.0 ≡ true)
  unfolding servers_of
  servers_of-IsIn test s [] = λ h. absurd h
  servers_of-IsIn test s ((p, info) ∷ servers) = elim (Bool-cases (test p)) [
    | inl passes ↦ rw passes (λ h. elim h [
      | inl here ↦ (inl here, subst (λ t. test t.0 ≡ true) here passes)
      | inr later ↦ (let rest = servers_of-IsIn test s servers later in (inr rest.0, rest.1))
    ])
    | inr fails ↦
        rw fails (λ h. (let rest = servers_of-IsIn test s servers h in (inr rest.0, rest.1)))
  ]

  IsIn-servers_of :
      (test : ℕ → Bool) (s : ℕ × ServerInfo F) (servers : List (ℕ × ServerInfo F))
      → IsIn s servers
      → test s.0 ≡ true
      → IsIn s (servers_of F test servers)
  unfolding servers_of
  IsIn-servers_of test s [] h e = h
  IsIn-servers_of test s ((p, info) ∷ servers) (inl here) e =
      (let passes : test p ≡ true = subst (λ t. test t.0 ≡ true) (sym here) e in
        rw passes (inl here))
  IsIn-servers_of test s ((p, info) ∷ servers) (inr later) e =
      (let rest = IsIn-servers_of test s servers later e in
        elim (Bool-cases (test p)) [
          | inl passes ↦ rw passes (inr rest)
          | inr fails ↦ rw fails rest
        ])

  length-servers_of :
      (test : ℕ → Bool) (servers : List (ℕ × ServerInfo F))
      → length (servers_of F test servers) ≤ length servers
  unfolding servers_of
  length-servers_of test [] = omega arith
  length-servers_of test ((p, info) ∷ servers) =
      (let rest = length-servers_of test servers in
        elim (Bool-cases (test p)) [
          | inl passes ↦ rw passes (omega (arith, rest))
          | inr fails ↦ rw fails (omega (arith, rest))
        ])

  -- If a filter leaves none out, all pass.
  all_pass :
      (test : ℕ → Bool) (s : ℕ × ServerInfo F) (servers : List (ℕ × ServerInfo F))
      → length servers ≤ length (servers_of F test servers)
      → IsIn s servers
      → test s.0 ≡ true
  unfolding servers_of
  all_pass test s [] a h = absurd h
  all_pass test s ((p, info) ∷ servers) a h = elim (Bool-cases (test p)) [
    | inl passes ↦
        (let rest : length servers ≤ length (servers_of F test servers) =
            ground (arith, a, passes) in
          elim h [
            | inl here ↦ subst (λ t. test t.0 ≡ true) here passes
            | inr later ↦ all_pass test s servers rest later
          ])
    | inr fails ↦
        (let few = length-servers_of test servers in absurd (ground (arith, a, fails, few)))
  ]

  -- Not banned, or all are.
  abbrev pub IsSpared : (ℕ → Bool) → (ℕ × ServerInfo F → Type 0) → ℕ × ServerInfo F → Type 0
  IsSpared banned Meant s =
      (banned s.0 ≡ false) ⊎ ((t : ℕ × ServerInfo F) → Meant t → banned t.0 ≡ true)

  or_all_iff :
      (banned : ℕ → Bool) (s : ℕ × ServerInfo F) (valid servers : List (ℕ × ServerInfo F))
      → servers_of F (λ p. not (banned p)) servers ≡ valid
      → IsIn s (or_all F valid servers) ↔ (IsIn s servers × IsSpared banned (λ t. IsIn t servers) s)
  unfolding or_all
  or_all_iff banned s [] servers e = (
    λ h. (
      h,
      inr (λ t k. elim (Bool-cases (banned t.0)) [
        | inl gone ↦ gone
        | inr stays ↦
            absurd
              (subst (IsIn t) e (IsIn-servers_of (λ p. not (banned p)) t servers k (rw stays refl)))
      ]),
    ),
    λ h. h.0,
  )
  or_all_iff banned s (v ∷ valid) servers e = (
    λ h.
        (let back = servers_of-IsIn (λ p. not (banned p)) s servers (subst (IsIn s) (sym e) h) in
          (back.0, inl (ground (arith, back.1)))),
    λ h. elim (h.1) [
      | inl stays ↦
          subst (IsIn s) e (IsIn-servers_of (λ p. not (banned p)) s servers h.0 (rw stays refl))
      | inr all_gone ↦
          (let first =
              servers_of-IsIn (λ p. not (banned p)) v servers (subst (IsIn v) (sym e) (inl refl)) in
            absurd (true_or_false (all_gone v first.0) (ground (arith, first.1))))
    ],
  )

  without_banned_iff :
      (banned : ℕ → Bool) (s : ℕ × ServerInfo F) (servers : List (ℕ × ServerInfo F))
      → IsIn s (without_banned F banned servers)
        ↔ (IsIn s servers × IsSpared banned (λ t. IsIn t servers) s)
  unfolding without_banned
  without_banned_iff banned s servers =
      (let valid = servers_of F (λ p. not (banned p)) servers in
        elim (Bool-cases (ltb (length valid) (length servers))) [
          | inl fewer ↦ rw fewer (or_all_iff banned s valid servers refl)
          | inr as_many ↦ rw as_many (
            λ h.
                (let stays =
                    all_pass (λ p. not (banned p)) s servers
                      (ltb→ge (length valid) (length servers) as_many) h in
                  (h, inl (ground (arith, stays)))),
            λ h. h.0,
          )
        ])

  -- A server of a block that the lists let through.
  abbrev pub IsMeant :
      Option (List ℕ) → Option (List ℕ) → List (ℕ × ServerInfo F) → ℕ × ServerInfo F → Type 0
  IsMeant allowed blocked servers s = IsIn s servers × Permits allowed s.0 × (Bars blocked s.0 → ⊥)

  IsMeant-iff :
      (allowed blocked : Option (List ℕ)) (s : ℕ × ServerInfo F) (servers : List (ℕ × ServerInfo F))
      → IsIn s (servers_of F (λ p. is_allowed allowed p && not (is_blocked blocked p)) servers)
        ↔ IsMeant allowed blocked servers s
  IsMeant-iff allowed blocked s servers =
      (let test : ℕ → Bool = λ p. is_allowed allowed p && not (is_blocked blocked p) in
        (
          λ h.
              (let back = servers_of-IsIn test s servers h in
                let both : (is_allowed allowed s.0 ≡ true) × (is_blocked blocked s.0 ≡ false) =
                  ground (arith, back.1) in
                (
                  back.0,
                  (allowed-Permits allowed s.0).0 both.0,
                  λ bars. true_or_false ((blocked-Bars blocked s.0).1 bars) both.1,
                )),
          λ h. IsIn-servers_of test s servers h.0 (
              let permitted = (allowed-Permits allowed s.0).1 h.1 in
              elim (Bool-cases (is_blocked blocked s.0)) [
                | inl bars ↦ absurd (h.2 ((blocked-Bars blocked s.0).0 bars))
                | inr clear ↦ rw (permitted, clear) refl
              ]),
        ))

  -- An update leaves a server to a block exactly if it is one of the block's, the allow list, if there
  -- is one, names its peer, the block list does not, and its peer is not banned, or the peers of all
  -- the servers of the block that the two lists let through are.
  pub screen_servers_iff :
      (allowed blocked : Option (List ℕ)) (banned : ℕ → Bool) (servers : List (ℕ × ServerInfo F))
      (s : ℕ × ServerInfo F)
      → IsIn s (screen_servers F allowed blocked banned servers)
        ↔ (IsMeant allowed blocked servers s × IsSpared banned (IsMeant allowed blocked servers) s)
  unfolding screen_servers
  screen_servers_iff allowed blocked banned servers s =
      (let listed =
          servers_of F (λ p. is_allowed allowed p && not (is_blocked blocked p)) servers in
        let outer = without_banned_iff banned s listed in
        let inner = IsMeant-iff allowed blocked in
        (
          λ h.
              (let k = outer.0 h in
                (
                  (inner s servers).0 k.0,
                  elim (k.1) [
                    | inl stays ↦ inl stays
                    | inr all_gone ↦ inr (λ t m. all_gone t ((inner t servers).1 m))
                  ],
                )),
          λ h. outer.1 (
            (inner s servers).1 h.0,
            elim (h.1) [
              | inl stays ↦ inl stays
              | inr all_gone ↦ inr (λ t m. all_gone t ((inner t servers).0 m))
            ],
          ),
        ))
