-- ===== src/Pipelines/Paths.antt =====
-- capability.go: the operations of a derived pipeline.
use go_capnproto.Prelude.{
  ℕ, zero, suc, ◌≤◌, ◌<◌, ◌≡◌, refl, arith, ap, ◌∙◌, List, [], ◌∷◌, ◌++◌, Option, length, replicate,
  set, length-set, length-replicate,
}
use go_capnproto.Pipelines.{
  PipelineOp, Pipeline, root_of, derived, answer, get_pipeline_default, count_ops, place_ops,
  transform, no_op,
}

module _ {A : Type 0} where
  set-append :
      (xs ys : List A) (i : ℕ) (v : A) → i < length xs → set (xs ++ ys) i v ≡ set xs i v ++ ys
  set-append [] ys i v h = absurd (omega arith)
  set-append (x ∷ xs) ys zero v h = refl
  set-append (x ∷ xs) ys (suc i) v h = ap (λ t. x ∷ t) (set-append xs ys i v (omega arith))

  set-last : (n : ℕ) (a v : A) → set (replicate (suc n) a) n v ≡ replicate n a ++ (v ∷ [])
  set-last zero a v = refl
  set-last (suc n) a v = ap (λ t. a ∷ t) (set-last n a v)

place_ops-append :
    (i : ℕ) (p : Pipeline) (xs ys : List PipelineOp)
    → i ≤ length xs
    → place_ops i p (xs ++ ys) ≡ place_ops i p xs ++ ys
unfolding place_ops
place_ops-append zero (root_of ans) xs ys h = refl
place_ops-append (suc i) (root_of ans) xs ys h = refl
place_ops-append zero (derived ans parent op) xs ys h = refl
place_ops-append (suc i) (derived ans parent op) xs ys h =
    ap (place_ops i parent) (set-append xs ys i op (omega arith))
    ∙ place_ops-append i parent (set xs i op) ys (omega (arith, length-set xs i op))

-- A pipeline that is derived from another one has the same answer, and its operations are those of
-- the other one in order, with the field and the default value that it was derived by at the end.
pub transform-get_pipeline_default :
    (p : Pipeline) (off : ℕ) (def : Option (List ℕ))
    → (answer (get_pipeline_default p off def) ≡ answer p)
      × (transform (get_pipeline_default p off def)
          ≡ transform p ++ (record { field = off; default_value = def } ∷ []))
unfolding get_pipeline_default transform count_ops place_ops answer
transform-get_pipeline_default p off def = (
  refl,
  ap (place_ops (count_ops p) p)
        (set-last (count_ops p) no_op (record { field = off; default_value = def }))
      ∙ place_ops-append (count_ops p) p (replicate (count_ops p) no_op) _
          (omega (arith, length-replicate {A = PipelineOp} (count_ops p) no_op)),
)
