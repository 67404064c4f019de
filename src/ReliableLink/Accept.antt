-- ===== src/ReliableLink/Accept.antt =====
-- `_handle_data` on a genuine fragment: it returns, keeps the state sound, keeps what was there, and
-- has the fragment afterwards.
use mathlib.Core.List.{flatten}
use mathlib.Core.Option.{some-injective}
use qfabric.Prelude.{
  ℕ, ◌≤◌, ◌≡◌, refl, sym, ◌∙◌, ap, subst, inl, inr, true, false, Option-cases, none, some, List, [],
  length, get_elem?, arith, ◌==◌, ==_refl, Bool-cases,
}
use qfabric.Prelude.Maps.{has, lookup, insert}
use qfabric.Prelude.Result.{ok}
use qfabric.Bytes.{Bytes}
use qfabric.ReliableLink.{
  LinkState, fragments, join, set_default, release, put_fragment, accept_data,
}
use qfabric.ReliableLink.Fragments.{flatten-fragments}
use qfabric.ReliableLink.Assembly.{
  IsPartial, empty-IsPartial, set_default-IsPartial, full-join, filled-le,
}
use qfabric.ReliableLink.Receive.{
  is_done, in_assembly, has_got, complete, grow, IsSound, IsDrained, IsReleased, IsGenuine,
  IsAccepted, release-IsReleased, complete-IsSound, complete_kept, complete_got, grow-IsSound,
  grow_kept, grow_got,
}

-- Both ways on of a fragment that fits its assembly.
put_fragment_full :
    (l : LinkState) (s i c : ℕ) (p m : Bytes) (d : List (ℕ × Bytes))
    → length (set_default i p d) ≡ c
    → join (set_default i p d) 0 c ≡ ok m
    → put_fragment l s i c p c d ≡ ok (release (length (insert s m l.completed)) (complete l s m))
unfolding put_fragment
put_fragment_full l s i c p m d full joined = rw (==_refl c, full, joined, ==_refl c)

put_fragment_more :
    (l : LinkState) (s i c : ℕ) (p : Bytes) (d : List (ℕ × Bytes))
    → (length (set_default i p d) == c) ≡ false
    → put_fragment l s i c p c d ≡ ok (grow l s c (set_default i p d))
unfolding put_fragment
put_fragment_more l s i c p d more = rw (==_refl c, more)

accept_old :
    (l : LinkState) (s i c : ℕ) (p : Bytes) → is_done l s ≡ true → accept_data l s i c p ≡ ok l
unfolding accept_data
accept_old l s i c p e = rw e

accept_first :
    (l : LinkState) (s i c : ℕ) (p : Bytes)
    → is_done l s ≡ false
    → lookup s l.assemblies ≡ none
    → accept_data l s i c p ≡ put_fragment l s i c p c []
unfolding accept_data
accept_first l s i c p e f = rw (e, f)

accept_next :
    (l : LinkState) (s i c : ℕ) (p : Bytes) (c' : ℕ) (d : List (ℕ × Bytes))
    → is_done l s ≡ false
    → lookup s l.assemblies ≡ some (c', d)
    → accept_data l s i c p ≡ put_fragment l s i c p c' d
unfolding accept_data
accept_next l s i c p c' d e f = rw (e, f)

module _ (messages : List Bytes) (size : ℕ) (size_pos : 1 ≤ size) where
  got-after :
      (l l' : LinkState) (t j : ℕ)
      → IsReleased messages size size_pos l l'
      → has_got l t j ≡ true
      → has_got l' t j ≡ true
  got-after l l' t j r h =
      ground (arith, h, r.kept t, ap (λ a. in_assembly (lookup t a) j) r.same_assemblies)

  complete-IsAccepted :
      (l l' : LinkState) (s i : ℕ) (m : Bytes)
      → IsReleased messages size size_pos (complete l s m) l'
      → IsAccepted messages size size_pos l s i l'
  complete-IsAccepted l l' s i m r = record {
    sound = r.sound;
    drained = r.drained;
    kept = λ t j h.
        got-after (complete l s m) l' t j r (complete_kept messages size size_pos l s m t j h);
    got =
        got-after (complete l s m) l' s i r
          (ground (arith, complete_got messages size size_pos l s m));
  }

  put_fragment-IsAccepted :
      (l : LinkState) (s i c : ℕ) (p m : Bytes) (d : List (ℕ × Bytes))
      → IsSound messages size size_pos l
      → IsDrained messages size size_pos l
      → get_elem? messages s ≡ some m
      → c ≡ length (fragments size m)
      → get_elem? (fragments size m) i ≡ some p
      → l.next_rx_seq ≤ s
      → IsPartial (fragments size m) d
      → ((k : ℕ) → has k d ≡ in_assembly (lookup s l.assemblies) k)
      → (l' : LinkState) × (put_fragment l s i c p c d ≡ ok l')
        × IsAccepted messages size size_pos l s i l'
  put_fragment-IsAccepted l s i c p m d v dr at count frag late part old =
      let part' = set_default-IsPartial (fragments size m) d i p frag part in
      elim (Bool-cases (length (set_default i p d) == c)) [
        | inl e ↦
            let full : length (set_default i p d) ≡ c = ground arith in
            let joined : join (set_default i p d) 0 c ≡ ok m =
              subst (λ n. join (set_default i p d) 0 n ≡ ok (flatten (fragments size m)))
                (sym count) (full-join (fragments size m) (set_default i p d) part' (full ∙ count))
              ∙ ap ok (flatten-fragments size m size_pos) in
            (
              release (length (insert s m l.completed)) (complete l s m),
              put_fragment_full l s i c p m d full joined,
              complete-IsAccepted l _ s i m (
                  release-IsReleased messages size size_pos (length (insert s m l.completed))
                    (complete l s m) (omega arith)
                    (complete-IsSound messages size size_pos l s m at late v)),
            )
        | inr e ↦ (
          grow l s c (set_default i p d),
          put_fragment_more l s i c p d e,
          record {
            sound =
                grow-IsSound messages size size_pos l s c (set_default i p d) m at count part'
                  (ground (
                    arith,
                    e,
                    part'.counted,
                    filled-le (set_default i p d) (length (fragments size m)),
                    count,
                  ))
                  v;
            drained = dr;
            kept = λ t j. grow_kept messages size size_pos l s c i p d t j old;
            got = grow_got messages size size_pos l s c i p d;
          },
        )
      ]

  -- A genuine fragment is accepted in every sound state, whatever has arrived before.
  pub accept_data-IsAccepted :
      (l : LinkState) (s i c : ℕ) (p : Bytes)
      → IsSound messages size size_pos l
      → IsDrained messages size size_pos l
      → IsGenuine messages size size_pos s i c p
      → (l' : LinkState) × (accept_data l s i c p ≡ ok l')
        × IsAccepted messages size size_pos l s i l'
  accept_data-IsAccepted l s i c p v dr (m, at, count, frag) = elim (Bool-cases (is_done l s)) [
    | inl old ↦ (
      l,
      accept_old l s i c p old,
      record { sound = v; drained = dr; kept = λ t j h. h; got = rw old },
    )
    | inr new ↦ elim (Option-cases (lookup s l.assemblies)) [
      | inl none_yet ↦
          let (l', e, a) =
            put_fragment-IsAccepted l s i c p m [] v dr at count frag (ground arith)
              (empty-IsPartial (fragments size m)) (λ k. rw none_yet (unfold lookup in refl)) in
          (l', accept_first l s i c p new none_yet ∙ e, a)
      | inr ((c', d), there) ↦
          let (m', at', count', part, short) = v.partial s c' d there in
          let same : m' ≡ m = some-injective m' m (sym at' ∙ at) in
          let same_count : c' ≡ c = count' ∙ ap (λ t. length (fragments size t)) same ∙ sym count in
          let (l', e, a) =
            put_fragment-IsAccepted l s i c p m d v dr at count frag (ground arith)
              (subst (λ t. IsPartial (fragments size t) d) same part) (λ k. rw there refl) in
          (
            l',
            accept_next l s i c p c' d new there
                ∙ ap (λ n. put_fragment l s i c p n d) same_count
                ∙ e,
            a,
          )
    ]
  ]
