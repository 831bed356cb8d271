-- ===== src/Tree/Remove/Siblings/Written.antt =====
-- `remove_attempt` of src/node.rs: the state after a parent and two of its children are written.
use b_link.Prelude.{
  ℕ, ◌<◌, ◌≡◌, ◌≢◌, refl, sym, ◌∙◌, subst, inl, inr, arith, ◌==◌, Bool-cases, length, length-set,
  lt_of_get_elem?,
}
use b_link.Ord.{Ord}
use b_link.Node.{Addr, Node}
use b_link.Tree.{Tree, store}
use b_link.Tree.Invariant.{Page, Inv}
use b_link.Tree.Invariant.Pages.{Page-unique, store-new, store-other, store-cases}
use b_link.Tree.Remove.Siblings.{Siblings, right_level, not_parent, distinct}

module _ {K V : Type 0} ⦃o : Ord K⦄ {n : ℕ} {t : Tree K V} {level : Addr → ℕ} (inv : Inv n t level)
    (f : Siblings n t level) (left right parent : Node K V) where
  abbrev pub written : Tree K V
  written = store (store (store t f.c left) f.d right) f.a parent

  abbrev pub first : Tree K V
  first = store t f.c left

  abbrev pub second : Tree K V
  second = store first f.d right

  first_size : length first.pages ≡ length t.pages
  first_size = length-set t.pages f.c left

  second_size : length second.pages ≡ length t.pages
  second_size = length-set first.pages f.d right ∙ first_size

  pub size : length written.pages ≡ length t.pages
  size = length-set second.pages f.a parent ∙ second_size

  pub left-valid : f.c < length t.pages
  left-valid = lt_of_get_elem? t.pages f.c f.p f.left_at

  pub right-valid : f.d < length t.pages
  right-valid = lt_of_get_elem? t.pages f.d f.r f.right_at

  parent-valid : f.a < length t.pages
  parent-valid = lt_of_get_elem? t.pages f.a f.q f.parent_at

  left_below : f.a ≢ f.c
  left_below e = not_parent inv f f.c refl (sym e)

  right_below : f.a ≢ f.d
  right_below e = not_parent inv f f.d (right_level inv f) (sym e)

  pub left_now : Page written f.c left
  left_now = store-other second f.a parent f.c left left_below (
      store-other first f.d right f.c left (λ e. distinct inv f (sym e))
        (store-new t f.c left left-valid))

  pub right_now : Page written f.d right
  right_now =
      store-other second f.a parent f.d right right_below
        (store-new first f.d right (omega (arith, first_size, right-valid)))

  pub parent_now : Page written f.a parent
  parent_now = store-new second f.a parent (omega (arith, second_size, parent-valid))

  pub old_now :
      (b : Addr) (x : Node K V) → f.c ≢ b → f.d ≢ b → f.a ≢ b → Page t b x → Page written b x
  old_now b x hc hd ha was =
      store-other second f.a parent b x ha
        (store-other first f.d right b x hd (store-other t f.c left b x hc was))

  -- A page is one of the three that were written, or an old one.
  pub data Cases (b : Addr) (x : Node K V) : Type 0 where
    at_left : f.c ≡ b → x ≡ left → Cases b x
    at_right : f.d ≡ b → x ≡ right → Cases b x
    at_parent : f.a ≡ b → x ≡ parent → Cases b x
    elsewhere : f.c ≢ b → f.d ≢ b → f.a ≢ b → Page t b x → Cases b x

  pub cases : (b : Addr) (x : Node K V) → Page written b x → Cases b x
  cases b x h =
      elim (store-cases second f.a parent b x (omega (arith, second_size, parent-valid)) h) [
        | inl (same, e) ↦ at_parent same e
        | inr (ha, h) ↦
            elim (store-cases first f.d right b x (omega (arith, first_size, right-valid)) h) [
              | inl (same, e) ↦ at_right same e
              | inr (hd, h) ↦ elim (store-cases t f.c left b x left-valid h) [
                | inl (same, e) ↦ at_left same e
                | inr (hc, was) ↦ elsewhere hc hd ha was
              ]
            ]
      ]

  -- A page of the old tree is one of the two children, the parent, or another.
  pub data Was (b : Addr) (x : Node K V) : Type 0 where
    was_left : f.c ≡ b → f.p ≡ x → Was b x
    was_right : f.d ≡ b → f.r ≡ x → Was b x
    was_parent : f.a ≡ b → f.q ≡ x → Was b x
    was_other : f.c ≢ b → f.d ≢ b → f.a ≢ b → Page written b x → Was b x

  pub Was-cases : (b : Addr) (x : Node K V) → Page t b x → Was b x
  Was-cases b x was = elim (Bool-cases (f.c == b)) [
    | inl same ↦
        let here : f.c ≡ b = ground arith in
        was_left here (Page-unique t b f.p x (subst (λ y. Page t y f.p) here f.left_at) was)
    | inr hc ↦ elim (Bool-cases (f.d == b)) [
      | inl same ↦
          let here : f.d ≡ b = ground arith in
          was_right here (Page-unique t b f.r x (subst (λ y. Page t y f.r) here f.right_at) was)
      | inr hd ↦ elim (Bool-cases (f.a == b)) [
        | inl same ↦
            let here : f.a ≡ b = ground arith in
            was_parent here (Page-unique t b f.q x (subst (λ y. Page t y f.q) here f.parent_at) was)
        | inr ha ↦
            was_other (ground arith) (ground arith) (ground arith)
              (old_now b x (ground arith) (ground arith) (ground arith) was)
      ]
    ]
  ]
