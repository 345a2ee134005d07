-- ===== src/Gateway/SmartRouter.antt =====
-- The cost-optimising model router (modules/gateway/services/smart_router.py). The classifier and
-- the label encoder are scikit-learn's, and a parameter: a fitted pair gives an index to each
-- known model, and the probability of sufficient quality at an input. Scores and probabilities are
-- in ten-thousandths, costs in hundredths. The logged times are left out.
pub mod Choice
use llm_dashboard.Base.{
  ℕ, ◌+◌, ◌*◌, Bool, true, false, not, ◌&&◌, ◌||◌, Option, none, some, List, [], ◌∷◌, map, String,
  str_eq, leb, ltb, ◌==◌, if◌then◌else◌, length, find, filter,
}

unfoldable pub min_training_samples : ℕ
min_training_samples = 50

-- `QUALITY_THRESHOLD`, 0.7.
abbrev pub quality_threshold : ℕ
quality_threshold = 7000

-- The default of `min_confidence`, 0.85.
abbrev pub default_min_confidence : ℕ
default_min_confidence = 8500

abbrev pub model_max_age_hours : ℕ
model_max_age_hours = 6

-- `MODEL_COST_TIERS`, the cheapest first.
abbrev pub model_cost_tiers : List (String × ℕ)
model_cost_tiers =
    ("gpt-4o-mini", 15)
    ∷ ("claude-3-haiku-20240307", 25)
    ∷ ("gpt-3.5-turbo", 50)
    ∷ ("claude-3-sonnet-20240229", 100)
    ∷ ("gpt-4o", 150)
    ∷ ("gpt-4-turbo", 200)
    ∷ ("claude-3-opus-20240229", 300)
    ∷ []

-- `_MODEL_COST`
unfoldable pub model_cost : List (String × ℕ) → String → Option ℕ
model_cost [] m = none
model_cost ((name, cost) ∷ tiers) m = if str_eq name m then some cost else model_cost tiers m

unfoldable pub names : List (String × ℕ) → List String
names [] = []
names ((name, _) ∷ tiers) = name ∷ names tiers

-- `_CHEAPER_MODELS[m]`: the tiers below the cost of a listed model, in their order.
unfoldable pub cheaper_models : List (String × ℕ) → String → Option (List String)
unfolding model_cost names
cheaper_models tiers m = elim (model_cost tiers m) [
  | none ↦ none
  | some cost ↦ some (names (filter (λ t. ltb t.1 cost) tiers))
]

-- A fitted classifier with its label encoder: `encode` fails on an unknown label.
pub record Classifier : Type 0 where
  pub encode : String → Option ℕ
  pub prob_good : ℕ → ℕ → ℕ → ℕ
  pub classes : List String

pub record Sample : Type 0 where
  pub model : String
  pub input_tokens : ℕ
  pub output_tokens : ℕ
  pub quality_score : ℕ

pub record SmartRouter : Type 0 where
  pub model : Option Classifier
  pub trained_at : Option ℕ
  pub sample_count : ℕ
  pub known_models : List String

unfoldable pub init : SmartRouter
init = record { model = none; trained_at = none; sample_count = 0; known_models = [] }

unfoldable pub is_ready : SmartRouter → Bool
unfolding min_training_samples
is_ready s = elim (s.model) [ none ↦ false | some _ ↦ leb min_training_samples s.sample_count ]

-- Times in seconds.
unfoldable pub is_stale : SmartRouter → ℕ → Bool
is_stale s now = elim (s.trained_at) [
  | none ↦ true
  | some t ↦ ltb (t + model_max_age_hours * 3600) now
]

pub data TrainStatus : Type 0 where
  insufficient_data single_class trained : TrainStatus

-- `len(set(y)) < 2` for the quality labels.
unfoldable pub has_label : Bool → ℕ → List Sample → Bool
has_label good threshold [] = false
has_label good threshold (d ∷ samples) =
    (if good then leb threshold d.quality_score else ltb d.quality_score threshold)
    || has_label good threshold samples

unfoldable pub train :
    (fit : List Sample → Classifier) (now : ℕ)
    → SmartRouter
    → List Sample
    → SmartRouter × TrainStatus
unfolding min_training_samples has_label
train fit now s samples =
    if ltb (length samples) min_training_samples
    then (s, insufficient_data)
    else if not
        (has_label true quality_threshold samples && has_label false quality_threshold samples)
    then (s, single_class)
    else (
      record {
        model = some (fit samples);
        trained_at = some now;
        sample_count = length samples;
        known_models = (fit samples).classes;
      },
      trained,
    )

unfoldable pub contains : String → List String → Bool
contains m [] = false
contains m (x ∷ xs) = str_eq x m || contains m xs

-- The body of the loop up to the test of the confidence.
unfoldable pub is_viable : SmartRouter → Classifier → ℕ → ℕ → ℕ → String → Bool
unfolding contains
is_viable s clf input_tokens output_tokens min_confidence candidate =
    contains candidate s.known_models && elim (clf.encode candidate) [
      | none ↦ false
      | some idx ↦ leb min_confidence (clf.prob_good input_tokens output_tokens idx)
    ]

-- The loop over the cheaper options; a later viable candidate replaces an earlier one.
unfoldable pub best_route : (String → Bool) → Option String → List String → Option String
best_route viable best [] = best
best_route viable best (c ∷ options) = best_route viable (if viable c then some c else best) options

unfoldable pub route : SmartRouter → String → ℕ → ℕ → ℕ → Option String
unfolding is_ready cheaper_models is_viable best_route
route s model_requested input_tokens output_tokens min_confidence =
    if is_ready s
    then elim (s.model) [
      | none ↦ none
      | some clf ↦ elim (cheaper_models model_cost_tiers model_requested) [
        | none ↦ none
        | some options ↦
            best_route (is_viable s clf input_tokens output_tokens min_confidence) none options
      ]
    ]
    else none
