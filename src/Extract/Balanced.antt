-- ===== src/Extract/Balanced.antt =====
-- The node stack `ifparent` of the interpreter of cfsmextract (visit.go) is balanced.
use dingo_hunter.Prelude.{
  ℕ, ◌≡◌, refl, sym, subst, ap, ◌∙◌, arith, String, Bool, Option, none, some, List, ◌∷◌, inl, inr,
}
use dingo_hunter.Ssa.{Value}
use dingo_hunter.SessType.Node.{Role, Chan}
use dingo_hunter.SessType.Stack.Laws.{IsValid, items, pop_list, push-refines, removal-refines}
use dingo_hunter.SessType.Stack.{NodeStack, pop}
use dingo_hunter.Extract.State.{
  Scope, Store, Label, Goroutine, State, Outcome, done, panic, empty_stack, M, ◌>>=◌, modify_scope,
  modify_store, empty_body, label,
}
use dingo_hunter.Extract.Nodes.{
  set_leaf, leaf_to, new_var, write_var, grow, leaf_node, add_node, new_gortn, mark_visited,
  new_def, register, set_sel_node, leaf_to_child, push_leaf, leaf_to_top, pop_parent,
}
use dingo_hunter.Extract.Comm.{set_recvok, set_recv_test}
use dingo_hunter.Extract.Run.{branch, enqueue, new_role, visit_block}
use dingo_hunter.Extract.Main.{set_root}
use dingo_hunter.Extract.Program.{Program}
use dingo_hunter.Extract.Keeps.{Theory, Keeps, Quiet, Order, Laws}
use dingo_hunter.Extract.Keeps.Blocks.{keeps_visit_block}
use dingo_hunter.Extract.Keeps.Rules.{
  returned, bind, quietly, keeps_pure, keeps_gets, keeps_demand, keeps_read_var, weaken,
}

abbrev parents : State → List ℕ
parents s = items s.graph.if_parent

abbrev balanced : Theory
balanced = record {
  Inv = λ s. IsValid s.graph.if_parent;
  Later = λ s t. parents t ≡ parents s;
  Known = λ s ch. Unit;
}

-- The same, where the stack may change.
abbrev valid : Theory
valid = record { Inv = λ s. IsValid s.graph.if_parent; Later = λ s t. Unit; Known = λ s ch. Unit }

instance abbrev balanced_order : Order balanced
balanced_order = record { later_refl = λ s. refl; later_trans = λ s t u st tu. tu ∙ st }

instance abbrev valid_order : Order valid
valid_order = record { later_refl = λ s. tt; later_trans = λ s t u st tu. tt }

abbrev Kept : {A : Type 0} → State → A → State → Type 0
Kept s a t = IsValid t.graph.if_parent × (parents t ≡ parents s) × Unit {0}

modify_scope-keeps : (f : Scope → Scope) → Quiet balanced (modify_scope f)
unfolding modify_scope
modify_scope-keeps f = record { at = λ s s' a pre inv e. returned (Kept s) e (inv, refl, tt) }

modify_store-keeps : (f : Store → Store) → Quiet balanced (modify_store f)
unfolding modify_store
modify_store-keeps f = record { at = λ s s' a pre inv e. returned (Kept s) e (inv, refl, tt) }

set_leaf-keeps : (leaf : Option ℕ) → Quiet balanced (set_leaf leaf)
unfolding set_leaf
set_leaf-keeps leaf = record { at = λ s s' a pre inv e. returned (Kept s) e (inv, refl, tt) }

mark_visited-keeps : (blk n : ℕ) → Quiet balanced (mark_visited blk n)
unfolding mark_visited
mark_visited-keeps blk n = record { at = λ s s' a pre inv e. returned (Kept s) e (inv, refl, tt) }

set_sel_node-keeps : (v : Value) (blocking : Bool) → Quiet balanced (set_sel_node v blocking)
unfolding set_sel_node
set_sel_node-keeps v blocking = record {
  at = λ s s' a pre inv e. returned (Kept s) e (inv, refl, tt);
}

new_def-keeps : (v : Value) → Quiet balanced (new_def v)
unfolding new_def
new_def-keeps v = record { at = λ s s' a pre inv e. returned (Kept s) e (inv, refl, tt) }

register-keeps : (extern : Bool) (v : Value) → Quiet balanced (register extern v)
unfolding register
register-keeps extern v = record { at = λ s s' a pre inv e. returned (Kept s) e (inv, refl, tt) }

set_recvok-keeps : (v : Value) (ch : Option Chan) → Quiet balanced (set_recvok v ch)
unfolding set_recvok
set_recvok-keeps v ch = record { at = λ s s' a pre inv e. returned (Kept s) e (inv, refl, tt) }

set_recv_test-keeps : (v : Value) (ch : Chan) → Quiet balanced (set_recv_test v ch)
unfolding set_recv_test
set_recv_test-keeps v ch = record { at = λ s s' a pre inv e. returned (Kept s) e (inv, refl, tt) }

enqueue-keeps : (sc : Scope) (g : Goroutine) → Quiet balanced (enqueue sc g)
unfolding enqueue
enqueue-keeps sc g = record { at = λ s s' a pre inv e. returned (Kept s) e (inv, refl, tt) }

new_role-keeps : (name : String) → Quiet balanced (new_role name)
unfolding new_role
new_role-keeps name = record { at = λ s s' a pre inv e. returned (Kept s) e (inv, refl, tt) }

grow-keeps : (i : ℕ) (l : Label) → Quiet balanced (grow i l)
unfolding grow
grow-keeps i l = record { at = λ s s' a pre inv e. returned (Kept s) e (inv, refl, tt) }

leaf_to-keeps : (n : ℕ) → Quiet balanced (leaf_to n)
unfolding leaf_to new_var set_leaf ◌>>=◌
leaf_to-keeps n = record { at = λ s s' a pre inv e. returned (Kept s) e (inv, refl, tt) }

new_gortn-keeps : (role : Role) (l : Label) → Quiet balanced (new_gortn role l)
unfolding new_gortn
new_gortn-keeps role l = record { at = λ s s' a pre inv e. returned (Kept s) e (inv, refl, tt) }

write_var-keeps : (a n : ℕ) → Quiet balanced (write_var a n)
unfolding write_var
write_var-keeps a n = record { at = λ s s' a pre inv e. returned (Kept s) e (inv, refl, tt) }

leaf_node-keeps : Quiet balanced leaf_node
unfolding leaf_node
leaf_node-keeps = quietly (keeps_gets _) λ leaf. quietly (keeps_demand _ leaf) keeps_read_var

add_node-keeps : (l : Label) → Quiet balanced (add_node l)
unfolding add_node
add_node-keeps l =
    quietly leaf_node-keeps
      λ i. quietly (grow-keeps i l) λ n. quietly (leaf_to-keeps n) λ u. keeps_pure

leaf_to_child-keeps : (parent : Option ℕ) (idx : ℕ) → Quiet balanced (leaf_to_child parent idx)
unfolding leaf_to_child
leaf_to_child-keeps parent idx = quietly (keeps_demand _ parent) λ a.
    quietly (keeps_read_var a) λ p. quietly (keeps_gets _) λ g.
      quietly (keeps_demand _ _)
        λ n. quietly (keeps_gets _) λ leaf. quietly (keeps_demand _ leaf) λ b. write_var-keeps b n

leaf_to_top-keeps : Quiet balanced leaf_to_top
unfolding leaf_to_top
leaf_to_top-keeps = quietly (keeps_gets _) λ stack. quietly (keeps_demand _ _) leaf_to-keeps

set_root-keeps : Quiet balanced set_root
unfolding set_root
set_root-keeps = quietly (keeps_gets _) λ g.
    quietly (keeps_read_var g.root)
      λ root. record { at = λ s s' a pre inv e. returned (Kept s) e (inv, refl, tt) }

-- One more parent than these.
abbrev Over : List ℕ → State → Type 0
Over ns s = (n : ℕ) × (parents s ≡ n ∷ ns)

-- What keeps the parents keeps what is said of them.
among :
    {A : Type 0} {m : M A} (P : List ℕ → Type 0)
    → Quiet balanced m
    → Keeps valid (λ s. P (parents s)) (λ a s. P (parents s)) m
among P quiet = record {
  at = λ s s' a p inv e.
      let (inv', same, u) = quiet.at s s' a tt inv e in (inv', tt, subst P (sym same) p);
}

push_leaf-Over : (ns : List ℕ) → Keeps valid (λ s. parents s ≡ ns) (λ u s. Over ns s) push_leaf
unfolding push_leaf
push_leaf-Over ns = bind (among (λ ps. ps ≡ ns) leaf_node-keeps) λ n. record {
  at = λ s s' a same inv e.
      let (pushed, front, size) = push-refines s.graph.if_parent n inv in
      returned (λ x u. IsValid u.graph.if_parent × Unit {0} × Over ns u) e
        (pushed, tt, (n, front ∙ ap (λ ps. n ∷ ps) same));
}

popped :
    (ns : List ℕ) (n : ℕ) (s s' : State) (a : Unit {0}) (o : Option (NodeStack ℕ))
    → parents s ≡ n ∷ ns
    → IsValid s.graph.if_parent
    → pop s.graph.if_parent ≡ o
    → elim o as (λ o. Outcome (Unit {0} × State)) [
      | none ↦ panic empty_stack
      | some stack ↦ done (tt, record s { graph = record s.graph { if_parent = stack } })
    ]
      ≡ done (a, s')
    → IsValid s'.graph.if_parent × Unit {0} × (parents s' ≡ ns)
popped ns n s s' a none over inv found e = absurd cc
popped ns n s s' a (some stack) over inv found e =
    elim ((removal-refines s.graph.if_parent.nodes s.graph.if_parent.count inv).1) [
      | inl (nothing, empty) ↦ absurd cc
      | inr (rest, is, valid_rest, tail) ↦
          let same : rest ≡ stack = ground arith in
          let below : items rest ≡ ns =
            let left : some (items rest) ≡ some ns = tail ∙ ap pop_list over in ground arith in
          returned (λ x u. IsValid u.graph.if_parent × Unit {0} × (parents u ≡ ns)) e
            (subst IsValid same valid_rest, tt, subst (λ st. items st ≡ ns) same below)
    ]

pop_parent-Over : (ns : List ℕ) → Keeps valid (Over ns) (λ u s. parents s ≡ ns) pop_parent
unfolding pop_parent
pop_parent-Over ns = record {
  at = λ s s' a (n, over) inv e. popped ns n s s' a (pop s.graph.if_parent) over inv refl e;
}

over :
    {A : Type 0} {k : M A} (ns : List ℕ)
    → Quiet balanced k
    → Keeps valid (Over ns) (λ a s. Over ns s) k
over ns = among (λ ps. (i : ℕ) × (ps ≡ i ∷ ns))

-- A branch puts one parent on the stack and takes it off again.
branch-balanced :
    (m n : M (Unit {0})) (ns : List ℕ)
    → Quiet balanced m
    → Quiet balanced n
    → Keeps valid (λ s. parents s ≡ ns) (λ u s. parents s ≡ ns) (branch m n)
unfolding branch
branch-balanced m n ns keeps_m keeps_n = bind (push_leaf-Over ns) λ u.
    bind (over ns leaf_to_top-keeps) λ u. bind (over ns (add_node-keeps empty_body)) λ a.
      bind (over ns keeps_m) λ u. bind (over ns leaf_to_top-keeps) λ u.
        bind (over ns (add_node-keeps empty_body))
          λ b. bind (over ns keeps_n) λ u. pop_parent-Over ns

branch-keeps :
    (m n : M (Unit {0})) → Quiet balanced m → Quiet balanced n → Quiet balanced (branch m n)
branch-keeps m n keeps_m keeps_n = record {
  at = λ s s' a pre inv e.
      let (inv', u, same) =
        (branch-balanced m n (parents s) keeps_m keeps_n).at s s' a refl inv e in
      (inv', same, tt);
}

instance abbrev balanced_laws : Laws balanced
balanced_laws = record {
  order = balanced_order;
  known_later = λ s t ch later h. tt;
  chan_known = λ s vd ch inv h. tt;
  test_known = λ s v ch inv h. tt;
  recvok_known = λ s v ch inv h. tt;
  on_modify_scope = modify_scope-keeps;
  on_modify_store = modify_store-keeps;
  on_set_leaf = set_leaf-keeps;
  on_mark_visited = mark_visited-keeps;
  on_add_node = λ l. weaken (add_node-keeps l);
  on_new_gortn = λ role name. new_gortn-keeps role (label name);
  on_new_def = new_def-keeps;
  on_register = register-keeps;
  on_set_sel_node = set_sel_node-keeps;
  on_leaf_to_child = leaf_to_child-keeps;
  on_set_recvok = λ v ch. weaken (set_recvok-keeps v ch);
  on_set_recv_test = λ v ch. weaken (set_recv_test-keeps v ch);
  on_branch = branch-keeps;
  on_enqueue = enqueue-keeps;
  on_new_role = new_role-keeps;
  into_frame = λ s sc inv. inv;
  out_of_frame = λ s s' sc inv inv' later. (inv', later);
  on_set_root = set_root-keeps;
  on_switch = λ s fr g rest inv queue. (inv, refl);
}

-- If the visit of a block returns, the stack of the parents of branches is valid if it was before,
-- and holds the same nodes in the same order: whatever the block pushed was popped again.
pub visit_block_balanced :
    (prog : Program) (fuel blk : ℕ) (s s' : State)
    → IsValid s.graph.if_parent
    → visit_block prog fuel blk s ≡ done (tt, s')
    → IsValid s'.graph.if_parent × (items s'.graph.if_parent ≡ items s.graph.if_parent)
visit_block_balanced prog fuel blk s s' valid_s e =
    let (inv, same, u) = (keeps_visit_block {T = balanced} prog fuel blk).at s s' tt tt valid_s e in
    (inv, same)
