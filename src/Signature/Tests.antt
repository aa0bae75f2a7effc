-- ===== src/Signature/Tests.antt =====
-- Runs of the choice of a candidate, of the reading of signatures and of imports.
use kmp_lsp.Base.{ℕ, ◌≡◌, ◌↔◌, refl, true, false, some, none, List, [], ◌∷◌, map}
use kmp_lsp.Text.{
  Text, codes, ascii_table, trim, trim_start, trim_end, split_once, join, is_whitespace,
}
use kmp_lsp.TypeText.Names.{dotted_ident_prefix}
use kmp_lsp.Resolver.Names.{ImportEntry}
use kmp_lsp.Signature.{
  CallShape, Candidate, score, best_candidate_index, last_fun_param_type_str,
  nth_fun_param_type_str, written_params, split_params_at_depth_zero, is_lambda_shaped,
  lambda_type_receiver, strip_suspend, accepts, collect_signature, signature_lines,
  extract_first_arg, find_named_param_type_in_sig,
}
use kmp_lsp.Signature.Chosen.{Best, best_candidate_index-Best}
use kmp_lsp.Signature.Reach.{covers, Covers, covers_iff}

-- `Flow` has two functions `collect`, each with one parameter.
abbrev collector : Candidate
collector = (codes "collector: FlowCollector<T>", 1, 1)

abbrev action : Candidate
action = (codes "action: suspend (value: T) -> Unit", 1, 1)

abbrev with_lambda : CallShape
with_lambda = record { arg_count = 0; trailing_lambda = true }

best_candidate_index-Best_example :
    (((c : Candidate) (cs : List Candidate)
        → (i : ℕ) × (best_candidate_index ascii_table (c ∷ cs) with_lambda ≡ some i)
          × Best (map (score ascii_table with_lambda) (c ∷ cs)) i)
      × (best_candidate_index ascii_table [] with_lambda ≡ none))
best_candidate_index-Best_example = best_candidate_index-Best ascii_table with_lambda

takes_the_lambda : best_candidate_index ascii_table (collector ∷ action ∷ []) with_lambda ≡ some 1
unfolding best_candidate_index score accepts last_fun_param_type_str nth_fun_param_type_str
    written_params split_params_at_depth_zero is_lambda_shaped lambda_type_receiver strip_suspend
    trim trim_start trim_end is_whitespace split_once dotted_ident_prefix
takes_the_lambda = refl

abbrev nested : ImportEntry
nested = record {
  full_path = codes "a.b.Outer.Config";
  local_name = codes "Config";
  is_star = false;
}

covers_iff_example :
    (covers nested (codes "a.b") (codes "Config") ≡ true)
    ↔ Covers nested (codes "a.b") (codes "Config")
covers_iff_example = covers_iff nested (codes "a.b") (codes "Config")

is_covered :
    (covers nested (codes "a.b") (codes "Config") ≡ true)
    × (covers nested (codes "a") (codes "Config") ≡ true)
    × (covers nested (codes "b") (codes "Config") ≡ false)
unfolding covers
is_covered = (refl, refl, refl)

abbrev declaration : List Text
declaration = codes "fun f(" ∷ codes "  a: Int," ∷ codes "): Unit {" ∷ codes "}" ∷ []

whole_signature :
    collect_signature declaration 0
    ≡ join (10 ∷ []) (codes "fun f(" ∷ codes "a: Int," ∷ codes "): Unit" ∷ [])
unfolding collect_signature signature_lines trim trim_start trim_end is_whitespace join
whole_signature = refl

arguments :
    (extract_first_arg (codes "with(f<A, B>(x), y)") ≡ some (codes "f<A, B>(x)"))
    × (find_named_param_type_in_sig ascii_table (codes "val a: Int, b: (A) -> B") (codes "b")
        ≡ some (codes "(A) -> B"))
unfolding extract_first_arg find_named_param_type_in_sig split_params_at_depth_zero trim trim_start
    trim_end is_whitespace split_once
arguments = (refl, refl)
