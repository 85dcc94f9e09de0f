-- ===== src/Ci/Triggers.antt =====
-- internal/ci/triggers.go: which pushes the `on:` key of a workflow selects.
pub mod Globs
pub mod Filters
use gitmote.Common.{
  ℕ, Bool, true, false, not, ◌&&◌, ◌||◌, List, [], ◌∷◌, Bytes, bytes_eq, ◌==◌, if◌then◌else◌,
  is_empty, Option, none, some, codes,
}

-- yaml.Kind; `absent` is the kind 0 of a field that the document does not have.
pub data Kind : Type 0 where
  absent document scalar sequence mapping alias : Kind

-- yaml.Node, as far as it is read: its kind, its value and its content
mutual
  pub data Node : Type 0 where
    node : Kind → Bytes → Nodes → Node

  pub data Nodes : Type 0 where
    end : Nodes
    item : Node → Nodes → Nodes

-- pushTrigger
pub record PushTrigger : Type 0 where
  pub reacts : Bool
  pub branches : List Bytes
  pub branches_ignore : List Bytes

abbrev pub value : Node → Bytes
value (node k v c) = v

abbrev pub is_scalar : Node → Bool
is_scalar (node scalar v c) = true
is_scalar (node k v c) = false

abbrev pub no_trigger : PushTrigger
no_trigger = record { reacts = false; branches = []; branches_ignore = [] }

abbrev pub every_push : PushTrigger
every_push = record { reacts = true; branches = []; branches_ignore = [] }

abbrev pub push : Bytes
push = codes "push"

-- the loop of seqStrings
unfoldable pub scalars : Nodes → List Bytes
scalars end = []
scalars (item n ns) = if is_scalar n then value n ∷ scalars ns else scalars ns

-- seqStrings; a nil node is `none`
unfoldable pub seq_strings : Option Node → List Bytes
unfolding scalars
seq_strings none = []
seq_strings (some (node scalar v c)) = v ∷ []
seq_strings (some (node sequence v c)) = scalars c
seq_strings (some (node k v c)) = []

-- mapValue, on the content of the mapping
unfoldable pub map_value : Bytes → Nodes → Option Node
map_value key (item k (item v rest)) = if bytes_eq (value k) key then some v else map_value key rest
map_value key ns = none

-- the body of interpretOn's loop over a mapping, once the key is push
unfoldable pub push_filter : Node → PushTrigger
unfolding seq_strings map_value
push_filter (node mapping v c) = record {
  reacts = true;
  branches = seq_strings (map_value (codes "branches") c);
  branches_ignore = seq_strings (map_value (codes "branches-ignore") c);
}
push_filter n = every_push

unfoldable pub interpret_mapping : Nodes → PushTrigger
unfolding push_filter
interpret_mapping (item k (item v rest)) =
    if bytes_eq (value k) push then push_filter v else interpret_mapping rest
interpret_mapping ns = no_trigger

unfoldable pub interpret_sequence : Nodes → PushTrigger
interpret_sequence end = no_trigger
interpret_sequence (item n ns) =
    if is_scalar n && bytes_eq (value n) push then every_push else interpret_sequence ns

unfoldable pub interpret_on : Node → PushTrigger
unfolding interpret_mapping interpret_sequence
interpret_on (node scalar v c) = record {
  reacts = bytes_eq v push;
  branches = [];
  branches_ignore = [];
}
interpret_on (node sequence v c) = interpret_sequence c
interpret_on (node mapping v c) = interpret_mapping c
interpret_on (node k v c) = no_trigger

-- A part of the regular expression that globMatch builds: a quoted byte, [^/]* or .*
pub data Atom : Type 0 where
  literal : ℕ → Atom
  within_segment across_segments : Atom

-- the loop of globMatch
unfoldable pub atoms : Bytes → List Atom
atoms [] = []
atoms (c ∷ []) = (if c == b'*' then within_segment else literal c) ∷ []
atoms (c ∷ d ∷ glob) =
    let next = atoms (d ∷ glob) in
    let after_next = atoms glob in
    if c == b'*'
    then if d == b'*' then across_segments ∷ after_next else within_segment ∷ next
    else literal c ∷ next

-- A run of bytes that pass a test, then a match of the rest.
unfoldable pub skip : (ℕ → Bool) → (Bytes → Bool) → Bytes → Bool
skip p rest [] = rest []
skip p rest (b ∷ s) = rest (b ∷ s) || (p b && skip p rest s)

abbrev pub not_slash : ℕ → Bool
not_slash b = if b == b'/' then false else true

-- A dot of a regular expression matches no newline.
abbrev pub not_newline : ℕ → Bool
not_newline b = if b == 10 then false else true

-- MatchString of the anchored expression, byte by byte
unfoldable pub match_atoms : List Atom → Bytes → Bool
unfolding skip
match_atoms [] s = is_empty s
match_atoms (literal c ∷ rest) [] = false
match_atoms (literal c ∷ rest) (b ∷ s) = c == b && match_atoms rest s
match_atoms (within_segment ∷ rest) s = skip not_slash (match_atoms rest) s
match_atoms (across_segments ∷ rest) s = skip not_newline (match_atoms rest) s

-- What the file takes from outside: yaml.Unmarshal into workflowOn, and whether regexp.Compile
-- accepts the expression of a pattern.
pub record Parsers : Type 0 where
  pub on_key : Bytes → Option Node
  pub compiles : Bytes → Bool

module _ (parsers : Parsers) where
  open parsers use {on_key, compiles}

  unfoldable pub parse_push_trigger : Bytes → Option PushTrigger
  unfolding interpret_on
  parse_push_trigger content = elim (on_key content) [
    | none ↦ none
    | some n ↦ some (interpret_on n)
  ]

  unfoldable pub glob_match : (glob name : Bytes) → Bool
  glob_match glob name = if compiles glob then match_atoms (atoms glob) name else bytes_eq glob name

  unfoldable pub any_glob : List Bytes → Bytes → Bool
  any_glob [] name = false
  any_glob (p ∷ patterns) name = if glob_match p name then true else any_glob patterns name

  unfoldable pub matches : PushTrigger → Bytes → Bool
  matches t branch =
      if not t.reacts
      then false
      else if not (is_empty t.branches) && not (any_glob t.branches branch)
      then false
      else if not (is_empty t.branches_ignore) && any_glob t.branches_ignore branch
      then false
      else true
