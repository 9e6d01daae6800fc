-- ===== src/SecondFault/Registry.antt =====
-- `_CODE_REGISTRY`, `CODE_STAGE` and `_fault_family` of packaging/run_vectors.py.
use aee_conformance.Base.{String, List, [], ◌∷◌, if◌then◌else◌, str_eq, mem_str}

-- A failure code, its stage, and the families of its second fault.
abbrev pub Entry : Type 0
Entry = String × String × List String

abbrev pub code_registry : List Entry
code_registry =
    ("statement-malformed", "gate0", [])
    ∷ ("statement-type-unsupported", "gate0", [])
    ∷ ("predicate-type-unsupported", "gate0", [])
    ∷ ("member-spelling", "gate0", [])
    ∷ ("result-vocabulary", "gate0", [])
    ∷ ("issued-at-missing", "gate0", [])
    ∷ ("issued-at-malformed", "gate0", [])
    ∷ ("environment-incomplete", "gate0", "corpus" ∷ "binding" ∷ [])
    ∷ ("posture-vocabulary", "gate0", "binding" ∷ [])
    ∷ ("vocabulary-missing", "gate0", "vocab" ∷ [])
    ∷ ("vocabulary-not-canonical", "gate0", "vocab" ∷ [])
    ∷ ("vocabulary-caught-not-subset", "gate0", "vocab" ∷ [])
    ∷ ("vocabulary-digest-mismatch", "gate0", "vocab" ∷ [])
    ∷ ("corpus-digest-mismatch", "gate0", "corpus" ∷ [])
    ∷ ("manifest-duplicate-attack", "gate0", "corpus" ∷ [])
    ∷ ("corpus-manifest-no-attacks", "gate0", [])
    ∷ ("coverage-missing", "gate0", [])
    ∷ ("coverage-incomplete", "gate0", [])
    ∷ ("row-attack-unknown", "gate0", [])
    ∷ ("malformed-missing-actual-layer", "gate0", [])
    ∷ ("clean-row-layer-not-none", "gate0", [])
    ∷ ("subject-cardinality", "gate0", "binding" ∷ [])
    ∷ ("subject-sha256-missing", "gate0", "binding" ∷ [])
    ∷ ("run-entropy-missing", "gate0", "binding" ∷ [])
    ∷ ("digest-not-canonical", "gate0", "binding" ∷ [])
    ∷ ("fail-closed-substrate-row", "gate0", [])
    ∷ ("record-signatures-empty", "gate0", [])
    ∷ ("record-undecodable", "gate0", "root" ∷ [])
    ∷ ("batch-root-missing", "gate0", "root" ∷ "binding" ∷ [])
    ∷ ("batch-root-mismatch", "gate0", "root" ∷ [])
    ∷ ("batch-root-orphaned", "gate0", "root" ∷ [])
    ∷ ("duplicate-record", "gate0", "root" ∷ [])
    ∷ ("records-absent", "gate1", "root" ∷ "binding" ∷ [])
    ∷ ("refs-empty", "gate1", "root" ∷ "binding" ∷ [])
    ∷ ("ref-malformed", "gate1", "root" ∷ "binding" ∷ [])
    ∷ ("ref-out-of-range", "gate1", "root" ∷ "binding" ∷ [])
    ∷ ("payload-not-canonical", "gate1", "binding" ∷ [])
    ∷ ("payload-not-ijson", "gate1", "binding" ∷ [])
    ∷ ("payload-media-type", "gate1", "binding" ∷ [])
    ∷ ("payload-missing-reserved", "gate1", "binding" ∷ [])
    ∷ ("run-binding-mismatch", "gate1", "binding" ∷ [])
    ∷ ("method-cap-exceeded", "gate1", [])
    ∷ ("caught-row-uncovered", "gate1", [])
    ∷ ("reconstructed-row-uncovered", "gate1", [])
    ∷ ("clean-row-uncovered", "gate1", [])
    ∷ ("arming-covers-nothing", "gate1", [])
    ∷ ("sealed-covers-nothing", "gate1", [])
    ∷ ("examination-covers-nothing", "gate1", [])
    ∷ ("record-kind-unknown-covers-nothing", "gate1", [])
    ∷ ("moat-drop-covers-nothing", "gate1", [])
    ∷ ("uncommitted-observation-covers-nothing", "gate1", [])
    ∷ ("result-recompute-mismatch", "recompute", [])
    ∷ []

-- `CODE_STAGE.get(code, "gate0")`
unfoldable pub stage_in : List Entry → String → String
stage_in [] code = "gate0"
stage_in ((c, stage, _) ∷ es) code = if str_eq code c then stage else stage_in es code

unfoldable pub code_stage : String → String
unfolding stage_in
code_stage code = stage_in code_registry code

-- The codes of `es` that name the family.
unfoldable pub family_in : List Entry → String → List String
family_in [] name = []
family_in ((c, _, families) ∷ es) name =
    let rest = family_in es name in if mem_str name families then c ∷ rest else rest

unfoldable pub fault_family : String → List String
unfolding family_in
fault_family name = family_in code_registry name

abbrev pub root_fault_codes : List String
root_fault_codes = fault_family "root"

abbrev pub vocab_fault_codes : List String
vocab_fault_codes = fault_family "vocab"

abbrev pub corpus_fault_codes : List String
corpus_fault_codes = fault_family "corpus"

abbrev pub binding_fault_codes : List String
binding_fault_codes = fault_family "binding"
