-- ===== src/Migo/Loop/Unroll.antt =====
-- Static loops of migoextract that count downwards.
use dingo_hunter.Prelude.{
  ℕ, ◌≡◌, refl, ap, sym, ◌∙◌, Bool, true, false, Option, none, some, arith, Bool-cases, inl, inr,
  ltb, if◌then◌else◌,
}
use dingo_hunter.Ssa.{Value}
use dingo_hunter.Migo.Loop.{
  Loop, enter, unknown, static, Cmp, has_next, visit_bin_op, last_index, cond_on_enter, bound_at,
  is_enter, set_cond,
}

-- With a static bound downwards, no index is between the start and the end.
bound_at-down :
    (cond : Value) (is_phi : Bool) (max j : ℕ) (l : Loop)
    → (bound_at cond is_phi max false l).bound ≡ static
    → has_next (record (bound_at cond is_phi max false l) { index = j }) ≡ false
unfolding bound_at set_cond has_next
bound_at-down cond false max j l h = refl
bound_at-down cond true max j l h = elim (Bool-cases (ltb max l.start)) [
  | inl above ↦ rw above (ground arith)
  | inr not_above ↦ rw not_above
]

-- A loop that counts downwards, `i > n` or `i >= n`, and gets a static bound at its header is never
-- continued: whatever its index, `HasNext` answers that it ends.
pub descending_stops :
    (cond : Value) (op : Cmp) (is_phi : Bool) (n max j : ℕ) (l : Loop)
    → l.state ≡ enter
    → l.bound ≡ unknown
    → last_index op n ≡ some (max, false)
    → (visit_bin_op cond op is_phi (some n) l).bound ≡ static
    → has_next (record (visit_bin_op cond op is_phi (some n) l) { index = j }) ≡ false
unfolding visit_bin_op is_enter cond_on_enter
descending_stops cond op is_phi n max j l e unbound down is_bounded =
    let header : visit_bin_op cond op is_phi (some n) l ≡ bound_at cond is_phi max false l =
      ap (λ s. if is_enter s then cond_on_enter l.bound cond op is_phi (some n) l else l) e
      ∙ ap (λ b. cond_on_enter b cond op is_phi (some n) l) unbound
      ∙ ap
          (λ o.
            let found : Option (ℕ × Bool) = o in
            elim found [ none ↦ l | some (top, up) ↦ bound_at cond is_phi top up l ])
          down in
    ap (λ l'. has_next (record l' { index = j })) header
    ∙ bound_at-down cond is_phi max j l (ap (λ l'. l'.bound) (sym header) ∙ is_bounded)
