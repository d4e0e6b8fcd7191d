-- ===== src/Pipelines/Tests.antt =====
-- capability.go: a pipeline of three fields.
use go_capnproto.Prelude.{[], ◌∷◌, ◌++◌, ◌≡◌, some}
use go_capnproto.Pipelines.{
  Pipeline, new_pipeline, get_pipeline, get_pipeline_default, transform, answer,
}
use go_capnproto.Pipelines.Paths.{transform-get_pipeline_default}

abbrev two_fields : Pipeline
two_fields = get_pipeline (get_pipeline (new_pipeline 7) 1) 2

transform-get_pipeline_default_example :
    (answer (get_pipeline_default two_fields 3 (some (0 ∷ []))) ≡ answer two_fields)
    × (transform (get_pipeline_default two_fields 3 (some (0 ∷ [])))
        ≡ transform two_fields ++ (record { field = 3; default_value = some (0 ∷ []) } ∷ []))
transform-get_pipeline_default_example = transform-get_pipeline_default two_fields 3 (some (0 ∷ []))
