-- ===== src/Builder/Grow.antt =====
-- compiler/cstc_lir_builder/src/builder.cpp: what is in range stays in range when locals, blocks and scopes are added.
use cicest.Prelude.{
  ℕ, zero, suc, ◌+◌, ◌≤◌, ◌<◌, ◌≡◌, refl, ap, ◌⊎◌, inl, inr, List, [], ◌∷◌, ◌++◌, Option, none,
  some, All, length, arith,
}
use cicest.Symbol.{to_uint32}
use cicest.Lir.{
  LirOperandKind, LirOperand, LirStructInitField, LirRvalue, LirStmt, LirTerminatorNode,
  LirBasicBlock, LirLocalDecl, LirLocalId, invalid_local,
}
use cicest.Builder.{LoopContext, Bindings, set_at}
use cicest.Builder.Bounds.{
  OperandIn, FieldIn, RvalueIn, StmtIn, ValueIn, NodeIn, BlockIn, LoopIn, SlotIn, BindingsIn,
  FrameIn, LocalsNumbered, BlocksNumbered,
}

pub All-map {ℓ κ κ'} :
    {A : Type ℓ} {P : A → Type κ} {Q : A → Type κ'} (f : (x : A) → P x → Q x) (xs : List A)
    → All P xs
    → All Q xs
All-map f [] h = tt
All-map f (x ∷ xs) h = (f x h.0, All-map f xs h.1)

pub All-snoc {ℓ κ} :
    {A : Type ℓ} (P : A → Type κ) (xs : List A) (y : A) → All P xs → P y → All P (xs ++ y ∷ [])
All-snoc P [] y h p = (p, tt)
All-snoc P (x ∷ xs) y h p = (h.0, All-snoc P xs y h.1 p)

pub All-set_at {ℓ κ} :
    {A : Type ℓ} {P : A → Type κ} (i : ℕ) (f : A → A) (xs : List A)
    → ((x : A) → P x → P (f x))
    → All P xs
    → All P (set_at i f xs)
All-set_at i f [] keep h = tt
All-set_at zero f (x ∷ xs) keep h = (keep x h.0, h.1)
All-set_at (suc i) f (x ∷ xs) keep h = (h.0, All-set_at i f xs keep h.1)

pub length-set_at {ℓ} :
    {A : Type ℓ} (i : ℕ) (f : A → A) (xs : List A) → length (set_at i f xs) ≡ length xs
length-set_at i f [] = refl
length-set_at zero f (x ∷ xs) = refl
length-set_at (suc i) f (x ∷ xs) = ap suc (length-set_at i f xs)

pub length-snoc {ℓ} : {A : Type ℓ} (xs : List A) (y : A) → length (xs ++ y ∷ []) ≡ suc (length xs)
length-snoc [] y = refl
length-snoc (x ∷ xs) y = ap suc (length-snoc xs y)

pub LocalsNumbered-snoc :
    (k : ℕ) (ds : List LirLocalDecl) (d : LirLocalDecl)
    → d.id ≡ to_uint32 (k + length ds)
    → LocalsNumbered k ds
    → LocalsNumbered k (ds ++ d ∷ [])
LocalsNumbered-snoc k [] d e h = (omega arith, tt)
LocalsNumbered-snoc k (x ∷ ds) d e h = (h.0, LocalsNumbered-snoc (suc k) ds d (omega arith) h.1)

pub BlocksNumbered-snoc :
    (k : ℕ) (bs : List LirBasicBlock) (b : LirBasicBlock)
    → b.id ≡ to_uint32 (k + length bs)
    → BlocksNumbered k bs
    → BlocksNumbered k (bs ++ b ∷ [])
BlocksNumbered-snoc k [] b e h = (omega arith, tt)
BlocksNumbered-snoc k (x ∷ bs) b e h = (h.0, BlocksNumbered-snoc (suc k) bs b (omega arith) h.1)

pub BlocksNumbered-set_at :
    (k i : ℕ) (f : LirBasicBlock → LirBasicBlock) (bs : List LirBasicBlock)
    → ((b : LirBasicBlock) → (f b).id ≡ b.id)
    → BlocksNumbered k bs
    → BlocksNumbered k (set_at i f bs)
BlocksNumbered-set_at k i f [] same h = tt
BlocksNumbered-set_at k zero f (b ∷ bs) same h = (rw (same b) h.0, h.1)
BlocksNumbered-set_at k (suc i) f (b ∷ bs) same h =
    (h.0, BlocksNumbered-set_at (suc k) i f bs same h.1)

module _ {nl nl' : ℕ} (grow : nl ≤ nl') where
  pub OperandIn-grow : (op : LirOperand) → OperandIn nl op → OperandIn nl' op
  OperandIn-grow op h = by_kind op.kind h
    where
      by_kind :
          (k : LirOperandKind)
          → OperandIn nl (record op { kind = k })
          → OperandIn nl' (record op { kind = k })
      by_kind LirOperandKind.copy h = omega arith
      by_kind LirOperandKind.move h = omega arith
      by_kind LirOperandKind.const h = tt

  pub FieldIn-grow : (f : LirStructInitField) → FieldIn nl f → FieldIn nl' f
  FieldIn-grow f h = OperandIn-grow f.value h

  pub RvalueIn-grow : (rhs : LirRvalue) → RvalueIn nl rhs → RvalueIn nl' rhs
  RvalueIn-grow (LirRvalue.use_of op) h = OperandIn-grow op h
  RvalueIn-grow (LirRvalue.borrow place) h = omega arith
  RvalueIn-grow (LirRvalue.binary_op o a b) h = (OperandIn-grow a h.0, OperandIn-grow b h.1)
  RvalueIn-grow (LirRvalue.unary_op o a) h = OperandIn-grow a h
  RvalueIn-grow (LirRvalue.call name ops) h = All-map OperandIn-grow ops h
  RvalueIn-grow (LirRvalue.struct_init name fs) h = All-map FieldIn-grow fs h
  RvalueIn-grow (LirRvalue.enum_variant_ref e v) h = tt

  StmtIn-grow : (s : LirStmt) → StmtIn nl s → StmtIn nl' s
  StmtIn-grow (LirStmt.assign place rhs s) h = (omega arith, RvalueIn-grow rhs h.1)
  StmtIn-grow (LirStmt.drop_local id s) h = omega arith

  ValueIn-grow : (v : Option LirOperand) → ValueIn nl v → ValueIn nl' v
  ValueIn-grow none h = tt
  ValueIn-grow (some op) h = OperandIn-grow op h

  pub SlotIn-grow : (slot : Option LirLocalId) → SlotIn nl slot → SlotIn nl' slot
  SlotIn-grow none h = tt
  SlotIn-grow (some id) h = omega arith

  pub BindingsIn-grow : (frame : Bindings) → BindingsIn nl frame → BindingsIn nl' frame
  BindingsIn-grow frame h = All-map (λ b in_range. omega arith) frame h

  pub FrameIn-grow : (frame : List LirLocalId) → FrameIn nl frame → FrameIn nl' frame
  FrameIn-grow frame h = All-map (λ id in_range. omega arith) frame h

  value_grows :
      (id : LirLocalId) → (id ≡ invalid_local) ⊎ (id < nl) → (id ≡ invalid_local) ⊎ (id < nl')
  value_grows id (inl e) = inl e
  value_grows id (inr lt) = inr (omega arith)

  module _ {nb nb' : ℕ} (grow_blocks : nb ≤ nb') where
    pub NodeIn-grow : (node : LirTerminatorNode) → NodeIn nl nb node → NodeIn nl' nb' node
    NodeIn-grow (LirTerminatorNode.return_value v) h = ValueIn-grow v h
    NodeIn-grow (LirTerminatorNode.jump t) h = omega arith
    NodeIn-grow (LirTerminatorNode.switch_bool c t f) h =
        (OperandIn-grow c h.0, omega arith, omega arith)
    NodeIn-grow LirTerminatorNode.unreachable h = tt

    pub BlockIn-grow : (block : LirBasicBlock) → BlockIn nl nb block → BlockIn nl' nb' block
    BlockIn-grow block h =
        (All-map StmtIn-grow block.stmts h.0, NodeIn-grow block.terminator.node h.1)

    pub LoopIn-grow :
        {depth depth' : ℕ}
        → depth ≤ depth'
        → (ctx : LoopContext) → LoopIn nl nb depth ctx
        → LoopIn nl' nb' depth' ctx
    LoopIn-grow deeper ctx h =
        (omega arith, omega arith, value_grows ctx.break_value_local h.2, omega arith)
