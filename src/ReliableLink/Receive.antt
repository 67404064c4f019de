-- ===== src/ReliableLink/Receive.antt =====
-- The receiving side: whatever genuine data packets arrive, in any order and any number of times,
-- the messages delivered are the sent ones, in order and each once.
use qfabric.Prelude.{
  ℕ, zero, suc, ◌≤◌, ◌<◌, ◌≡◌, refl, sym, ◌∙◌, ap, subst, inl, inr, Bool, true, false, ◌||◌, Option,
  Option-cases, none, some, List, [], ◌∷◌, ◌++◌, length, get_elem?, get_elem?-lt, take, take-suc,
  arith, ◌==◌, ltb, Bool-cases,
}
use qfabric.Prelude.Maps.{
  has, lookup, insert, remove, lookup-insert, lookup-remove, length-remove, lookup_empty,
}
use qfabric.Bytes.{Bytes}
use qfabric.ReliableLink.{LinkState, Assembly, fragments, set_default, release}
use qfabric.ReliableLink.Assembly.{IsPartial, has-set_default}

-- Message number s is delivered, or complete and waiting for its turn.
abbrev pub is_done : LinkState → ℕ → Bool
is_done l s = ltb s l.next_rx_seq || has s l.completed

abbrev pub in_assembly : Option Assembly → ℕ → Bool
in_assembly none i = false
in_assembly (some (c, d)) i = has i d

-- The link has fragment i of message s.
abbrev pub has_got : LinkState → ℕ → ℕ → Bool
has_got l s i = is_done l s || in_assembly (lookup s l.assemblies) i

-- The next message is delivered.
abbrev pub popped : LinkState → Bytes → LinkState
popped l m = record l {
  next_rx_seq = suc l.next_rx_seq;
  completed = remove l.next_rx_seq l.completed;
  deliveries = l.deliveries ++ m ∷ [];
}

-- A message is complete: its assembly goes, and the message waits.
abbrev pub complete : LinkState → ℕ → Bytes → LinkState
complete l s m = record l { completed = insert s m l.completed; assemblies = remove s l.assemblies }

-- A fragment joins an assembly that is not full.
abbrev pub grow : LinkState → ℕ → ℕ → List (ℕ × Bytes) → LinkState
grow l s c d = record l { assemblies = insert s (c, d) l.assemblies }

release_step :
    (fuel : ℕ) (l : LinkState) (m : Bytes)
    → lookup l.next_rx_seq l.completed ≡ some m
    → release (suc fuel) l ≡ release fuel (popped l m)
unfolding release
release_step fuel l m e = rw (e, release)

module _ (messages : List Bytes) (size : ℕ) (size_pos : 1 ≤ size) where
  -- The receiver's state agrees with the messages that were sent.
  pub record IsSound (l : LinkState) : Type 0 where
    pub ordered : l.deliveries ≡ take l.next_rx_seq messages
    pub bounded : l.next_rx_seq ≤ length messages
    pub finished :
        (s : ℕ) (m : Bytes)
        → lookup s l.completed ≡ some m
        → (get_elem? messages s ≡ some m) × (l.next_rx_seq ≤ s)
    pub partial :
        (s : ℕ) (c : ℕ) (d : List (ℕ × Bytes))
        → lookup s l.assemblies ≡ some (c, d)
        → (m : Bytes) × (get_elem? messages s ≡ some m)
          × (c ≡ length (fragments size m))
          × IsPartial (fragments size m) d
          × (length d < c)

  -- Nothing that could be delivered is waiting.
  abbrev pub IsDrained : LinkState → Type 0
  IsDrained l = lookup l.next_rx_seq l.completed ≡ none

  -- What release leaves behind.
  pub record IsReleased (l l' : LinkState) : Type 0 where
    pub sound : IsSound l'
    pub drained : IsDrained l'
    pub same_assemblies : l'.assemblies ≡ l.assemblies
    pub kept : (s : ℕ) → is_done l s ≡ true → is_done l' s ≡ true

  popped-IsSound :
      (l : LinkState) (m : Bytes)
      → lookup l.next_rx_seq l.completed ≡ some m
      → IsSound l
      → IsSound (popped l m)
  popped-IsSound l m e v =
      let at = (v.finished l.next_rx_seq m e).0 in
      record {
        ordered = ap (λ t. t ++ m ∷ []) v.ordered ∙ sym (take-suc messages l.next_rx_seq m at);
        bounded = omega (arith, get_elem?-lt messages l.next_rx_seq m at);
        finished =
            λ s q h. ground (arith, h, lookup-remove l.next_rx_seq s l.completed, v.finished s q);
        partial = v.partial;
      }

  popped_kept :
      (l : LinkState) (m : Bytes) (s : ℕ) → is_done l s ≡ true → is_done (popped l m) s ≡ true
  popped_kept l m s h = ground (arith, lookup-remove l.next_rx_seq s l.completed)

  pub release-IsReleased :
      (fuel : ℕ) (l : LinkState)
      → length l.completed ≤ fuel
      → IsSound l
      → IsReleased l (release fuel l)
  unfolding release
  release-IsReleased zero l enough v = record {
    sound = v;
    drained = lookup_empty l.next_rx_seq l.completed enough;
    same_assemblies = refl;
    kept = λ s h. h;
  }
  release-IsReleased (suc fuel) l enough v =
      elim (Option-cases (lookup l.next_rx_seq l.completed)) [
        | inl e ↦
            rw (e, release)
              (record { sound = v; drained = e; same_assemblies = refl; kept = λ s h. h })
        | inr (m, e) ↦
            let less = length-remove l.next_rx_seq m l.completed e in
            let r =
              release-IsReleased fuel (popped l m) (omega (arith, less, enough))
                (popped-IsSound l m e v) in
            rw (release_step fuel l m e) (record {
              sound = r.sound;
              drained = r.drained;
              same_assemblies = r.same_assemblies;
              kept = λ s h. r.kept s (popped_kept l m s h);
            })
      ]

  -- Packet (s, i, c, p) carries a fragment of a message that was sent.
  abbrev pub IsGenuine : ℕ → ℕ → ℕ → Bytes → Type 0
  IsGenuine s i c p =
      (m : Bytes) × (get_elem? messages s ≡ some m)
      × (c ≡ length (fragments size m))
      × (get_elem? (fragments size m) i ≡ some p)

  -- What accepting fragment i of message s does.
  pub record IsAccepted (l : LinkState) (s i : ℕ) (l' : LinkState) : Type 0 where
    pub sound : IsSound l'
    pub drained : IsDrained l'
    pub kept : (t j : ℕ) → has_got l t j ≡ true → has_got l' t j ≡ true
    pub got : has_got l' s i ≡ true

  pub complete-IsSound :
      (l : LinkState) (s : ℕ) (m : Bytes)
      → get_elem? messages s ≡ some m
      → l.next_rx_seq ≤ s
      → IsSound l
      → IsSound (complete l s m)
  complete-IsSound l s m at late v = record {
    ordered = v.ordered;
    bounded = v.bounded;
    finished = λ t q h. ground (
      arith,
      h,
      lookup-insert s t m l.completed,
      v.finished t q,
      ap (get_elem? messages) {x = s} {y = t},
    );
    partial = λ t c d h. v.partial t c d (ground (arith, h, lookup-remove s t l.assemblies));
  }

  pub complete_kept :
      (l : LinkState) (s : ℕ) (m : Bytes) (t j : ℕ)
      → has_got l t j ≡ true
      → has_got (complete l s m) t j ≡ true
  complete_kept l s m t j h =
      ground (arith, h, lookup-insert s t m l.completed, lookup-remove s t l.assemblies)

  pub complete_got : (l : LinkState) (s : ℕ) (m : Bytes) → is_done (complete l s m) s ≡ true
  complete_got l s m = ground (arith, lookup-insert s s m l.completed)

  pub grow-IsSound :
      (l : LinkState) (s c : ℕ) (d : List (ℕ × Bytes)) (m : Bytes)
      → get_elem? messages s ≡ some m
      → c ≡ length (fragments size m)
      → IsPartial (fragments size m) d
      → length d < c
      → IsSound l
      → IsSound (grow l s c d)
  grow-IsSound l s c d m at count part short v = record {
    ordered = v.ordered;
    bounded = v.bounded;
    finished = v.finished;
    partial = λ t c' d' h. elim (Bool-cases (s == t)) [
      | inl e ↦
          let es : s ≡ t = ground arith in
          let ec : c ≡ c' = ground (arith, h, lookup-insert s t (c, d) l.assemblies) in
          let ed : d ≡ d' = ground (arith, h, lookup-insert s t (c, d) l.assemblies) in
          (
            m,
            ap (get_elem? messages) (sym es) ∙ at,
            sym ec ∙ count,
            subst (IsPartial (fragments size m)) ed part,
            omega (arith, ap length ed, short, ec),
          )
      | inr e ↦ v.partial t c' d' (ground (arith, h, lookup-insert s t (c, d) l.assemblies))
    ];
  }

  pub grow_kept :
      (l : LinkState) (s c i : ℕ) (p : Bytes) (d : List (ℕ × Bytes)) (t j : ℕ)
      → ((k : ℕ) → has k d ≡ in_assembly (lookup s l.assemblies) k)
      → has_got l t j ≡ true
      → has_got (grow l s c (set_default i p d)) t j ≡ true
  grow_kept l s c i p d t j old h = ground (
    arith,
    h,
    lookup-insert s t (c, set_default i p d) l.assemblies,
    has-set_default i j p d,
    old j,
    ap (λ (k : ℕ). lookup k l.assemblies) {x = s} {y = t},
  )

  pub grow_got :
      (l : LinkState) (s c i : ℕ) (p : Bytes) (d : List (ℕ × Bytes))
      → has_got (grow l s c (set_default i p d)) s i ≡ true
  grow_got l s c i p d =
      ground (arith, lookup-insert s s (c, set_default i p d) l.assemblies, has-set_default i i p d)
