-- ===== src/Completion/Bare.antt =====
-- The collection of bare names in resolver/complete.rs. The kinds are those of the protocol, by
-- their numbers; the `data` of an item, which the collection only passes on, is a text.
use kmp_lsp.Base.{
  ℕ, ◌+◌, ◌/◌, ◌%◌, Bool, false, not, ◌&&◌, ◌||◌, Option, none, some, List, [], ◌∷◌, ◌++◌, ◌==◌,
  if◌then◌else◌, any, leb, ltb,
}
use kmp_lsp.Text.{Text, Unicode, codes, byte_len, contains}
use kmp_lsp.TypeText.Names.{starts_with_lowercase, starts_with_uppercase}
use kmp_lsp.Resolver.ImportEdit.{TextEdit}
use kmp_lsp.Completion.Matching.{is_screaming_snake, match_score}

pub record CompletionItem : Type 0 where
  pub label : Text
  pub kind : ℕ
  pub filter_text : Option Text
  pub sort_text : Option Text
  pub insert_text : Option Text
  pub insert_text_format : Option ℕ
  pub command : Option Text
  pub detail : Option Text
  pub label_description : Option Text
  pub additional_text_edits : Option TextEdit
  pub item_data : Option Text

pub record BareCompleter : Type 0 where
  pub items : List CompletionItem
  pub seen : List Text
  pub lowercase_mode : Bool
  pub uppercase_mode : Bool
  pub camel_mode : Bool
  pub local_max_score : ℕ
  pub snippets : Bool
  pub annotation_only : Bool

abbrev first_is : (ℕ → Bool) → Text → Bool
first_is p [] = false
first_is p (c ∷ s) = p c

unfoldable pub new_completer : Unicode → Text → Bool → Bool → BareCompleter
new_completer u prefix snippets annotation_only = record {
  items = [];
  seen = [];
  lowercase_mode = first_is u.is_lowercase prefix;
  uppercase_mode = first_is u.is_uppercase prefix;
  camel_mode = first_is u.is_uppercase prefix && any u.is_lowercase prefix;
  local_max_score = if leb 4 (byte_len prefix) then 1 else 2;
  snippets = snippets;
  annotation_only = annotation_only;
}

-- FUNCTION is 3, METHOD 2, VARIABLE 6, FIELD 5, PROPERTY 10, CLASS 7.
abbrev is_callable : ℕ → Bool
is_callable kind = kind == 3 || kind == 2

abbrev is_member : ℕ → Bool
is_member kind = is_callable kind || kind == 6 || kind == 5 || kind == 10

-- A `u8` in decimal.
abbrev pub digits : ℕ → Text
digits n =
    if ltb n 10
    then (b'0' + n) ∷ []
    else if ltb n 100
    then (b'0' + n / 10) ∷ (b'0' + n % 10) ∷ []
    else (b'0' + n / 100) ∷ (b'0' + n / 10 % 10) ∷ (b'0' + n % 10) ∷ []

abbrev unless_empty : Text → Option Text
unless_empty [] = none
unless_empty (c ∷ s) = some (c ∷ s)

-- Whether the case of a name goes against the case of the prefix.
unfoldable pub wrong_case : Unicode → BareCompleter → Text → Bool
wrong_case u c name =
    c.lowercase_mode && starts_with_uppercase u name
    || c.uppercase_mode && starts_with_lowercase u name
    || c.camel_mode && is_screaming_snake u name

unfoldable pub score_within : Unicode → Text → Text → ℕ → Option ℕ
score_within u name prefix max_score = elim (match_score u name prefix) [
  | none ↦ none
  | some s ↦ if leb s max_score then some s else none
]

-- A snippet's format is 2 in the protocol.
abbrev pub bare_item :
    Unicode → BareCompleter → Text → ℕ → ℕ → ℕ → Text → Option Text → CompletionItem
bare_item u c name kind src_tier score detail item_data = record {
  label = name;
  kind = kind;
  filter_text = some name;
  sort_text = some (digits src_tier ++ digits score ++ u.to_lowercase name);
  insert_text =
      if c.snippets && not c.annotation_only && is_callable kind
      then some (name ++ codes "($1)")
      else none;
  insert_text_format =
      if c.snippets && not c.annotation_only && is_callable kind then some 2 else none;
  command =
      if c.snippets && not c.annotation_only && is_callable kind
      then some (codes "editor.action.triggerParameterHints")
      else none;
  detail = unless_empty detail;
  label_description = none;
  additional_text_edits = none;
  item_data = item_data;
}

-- A key that was not seen, with its item.
abbrev pub admit : Text → CompletionItem → BareCompleter → BareCompleter
admit key item c =
    if contains c.seen key
    then c
    else record c { seen = key ∷ c.seen; items = c.items ++ item ∷ [] }

abbrev pub add_scored :
    Unicode → Text → ℕ → ℕ → Text → Option Text → Option ℕ → BareCompleter → BareCompleter
add_scored u name kind src_tier detail item_data none c = c
add_scored u name kind src_tier detail item_data (some score) c =
    admit name (bare_item u c name kind src_tier score detail item_data) c

unfoldable pub add :
    Unicode → Text → Text → ℕ → ℕ → Text → Option Text → BareCompleter → BareCompleter
add u prefix name kind src_tier detail item_data c =
    if c.annotation_only && is_member kind || wrong_case u c name
    then c
    else add_scored u name kind src_tier detail item_data
        (score_within u name prefix c.local_max_score) c

-- An item of the standard library's list, as it is given.
abbrev pub stdlib_item : Unicode → ℕ → CompletionItem → CompletionItem
stdlib_item u score item = record item {
  sort_text = some (codes "3" ++ digits score ++ codes ":" ++ u.to_lowercase item.label);
  filter_text = some item.label;
}

abbrev pub add_stdlib_scored : Unicode → CompletionItem → Option ℕ → BareCompleter → BareCompleter
add_stdlib_scored u item none c = c
add_stdlib_scored u item (some score) c = admit item.label (stdlib_item u score item) c

unfoldable pub add_stdlib : Unicode → Text → CompletionItem → BareCompleter → BareCompleter
add_stdlib u prefix item c =
    if wrong_case u c item.label
    then c
    else add_stdlib_scored u item (score_within u item.label prefix 2) c

unfoldable pub add_all_stdlib : Unicode → Text → List CompletionItem → BareCompleter → BareCompleter
add_all_stdlib u prefix [] c = c
add_all_stdlib u prefix (item ∷ items) c =
    add_all_stdlib u prefix items (add_stdlib u prefix item c)

-- `bare_completions`, the list of the standard library, is the argument.
unfoldable pub collect_stdlib : Unicode → Text → List CompletionItem → BareCompleter → BareCompleter
collect_stdlib u prefix bare_completions c =
    if c.annotation_only then c else add_all_stdlib u prefix bare_completions c
