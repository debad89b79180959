-- ===== src/Statistics/Tests.antt =====
-- A run of the label counts, and instances of their theorems.
use rule_kiln.Prelude.{◌≡◌, refl, List, [], ◌∷◌, none, sort_by, insert_by, ◌>>=◌}
use rule_kiln.Numbers.Whole.{whole}
use rule_kiln.Evaluation.Gates.{set_of}
use rule_kiln.Statistics.Labels.{Pair, label_set, compute_accuracy, aligned}
use rule_kiln.Statistics.Paired.{PairedCase}

abbrev pairs : List Pair
pairs = ("b", "a") ∷ ("a", "a") ∷ ("b", "c") ∷ ("a", "b") ∷ []

labels_run : label_set pairs ≡ "a" ∷ "b" ∷ "c" ∷ []
unfolding label_set set_of sort_by insert_by
labels_run = refl

misaligned_run : compute_accuracy whole ("a" ∷ []) [] ≡ none
unfolding compute_accuracy aligned ◌>>=◌
misaligned_run = refl

abbrev cases : List PairedCase
cases =
    record {
      case_id = "1";
      expected_label = "a";
      baseline_prediction = "b";
      candidate_prediction = "a";
    }
    ∷ record {
      case_id = "2";
      expected_label = "a";
      baseline_prediction = "a";
      candidate_prediction = "c";
    }
    ∷ record {
      case_id = "3";
      expected_label = "b";
      baseline_prediction = "b";
      candidate_prediction = "b";
    }
    ∷ []
