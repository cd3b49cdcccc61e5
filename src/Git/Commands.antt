-- ===== src/Git/Commands.antt =====
-- mod/git/receive.go: the commands of a push, read from lines and written as a transaction of
-- `git update-ref`. A line is what the scanner hands out; that the input fails or that a line is longer
-- than the scanner's buffer is not modelled.
use marketplace_server.Base.{
  [], ◌∷◌, ◌++◌, length, any, all, Bool, List, Result, ℕ, eqb, err, if◌then◌else◌, leb, not, ok,
  ◌||◌, ◌&&◌,
}
use marketplace_server.Git.Bytes.{is_nil, contains, Bytes, ascii, has_prefix, split, all_zeros}

pub data ReceiveError : Type 0 where
  invalid_command invalid_object_id invalid_ref duplicate_ref empty_set no_op : ReceiveError

pub record ReceiveCommand : Type 0 where
  pub old_object_id : Bytes
  pub new_object_id : Bytes
  pub ref_name : Bytes

abbrev pub is_hex : ℕ → Bool
is_hex c = (leb 48 c && leb c 57) || (leb 97 c && leb c 102)

-- `validObjectID`
unfoldable pub valid_object_id : Bytes → ℕ → Bool
valid_object_id oid n = eqb (length oid) n && all is_hex oid

-- A byte of " \t\r\n\x00".
abbrev pub is_separator : ℕ → Bool
is_separator c = eqb c 32 || eqb c 9 || eqb c 13 || eqb c 10 || eqb c 0

-- `validReceiveRefName`
unfoldable pub valid_receive_ref_name : Bytes → Bool
unfolding has_prefix ascii split
valid_receive_ref_name ref =
    has_prefix ref (ascii "refs/")
    && not (any is_separator ref)
    && (has_prefix ref (ascii "refs/heads/") || has_prefix ref (ascii "refs/tags/"))
    && leb 3 (length (split b'/' ref))

-- `allZeroObjectID`
abbrev pub all_zero_object_id : Bytes → Bool
all_zero_object_id oid = not (is_nil oid) && all_zeros oid

abbrev pub Outcome : Type 0 → Type 0
Outcome A = Result ReceiveError A

abbrev pub refuse_if : {A : Type 0} → Bool → ReceiveError → Outcome A → Outcome A
refuse_if b x next = if b then err x else next

-- The checks of one line.
unfoldable pub parse_fields : ℕ → List Bytes → Outcome ReceiveCommand
parse_fields n (old ∷ new ∷ ref ∷ []) =
    refuse_if (is_nil old || is_nil new || is_nil ref) invalid_command (
      refuse_if (not (valid_object_id old n) || not (valid_object_id new n)) invalid_object_id (
        refuse_if (not (valid_receive_ref_name ref)) invalid_ref
          (ok (record { old_object_id = old; new_object_id = new; ref_name = ref }))))
parse_fields n _ = err invalid_command

unfoldable pub parse_line : ℕ → Bytes → Outcome ReceiveCommand
parse_line n l = parse_fields n (split 32 l)

abbrev pub prepended :
    ReceiveCommand → Outcome (List ReceiveCommand) → Outcome (List ReceiveCommand)
prepended c (ok cs) = ok (c ∷ cs)
prepended c (err x) = err x

-- The loop of `ParseReceiveCommands`; `seen` are the names of the commands before.
unfoldable pub parse_from : ℕ → List Bytes → List Bytes → Outcome (List ReceiveCommand)
parse_from n seen [] = ok []
parse_from n seen (l ∷ ls) = elim (parse_line n l) [
  | err x ↦ err x
  | ok c ↦
      (let rest = parse_from n (c.ref_name ∷ seen) ls in
        if contains c.ref_name seen then err duplicate_ref else prepended c rest)
]

abbrev pub not_empty : Outcome (List ReceiveCommand) → Outcome (List ReceiveCommand)
not_empty (ok []) = err empty_set
not_empty (ok (c ∷ cs)) = ok (c ∷ cs)
not_empty (err x) = err x

-- `ParseReceiveCommands`, of the lines of the input and the length of an object identifier.
unfoldable pub parse_receive_commands : ℕ → List Bytes → Outcome (List ReceiveCommand)
unfolding parse_from
parse_receive_commands n ls = not_empty (parse_from n [] ls)

-- One line of the transaction.
unfoldable pub update_ref_line : ReceiveCommand → Outcome Bytes
unfolding ascii
update_ref_line c =
    if all_zero_object_id c.new_object_id
    then refuse_if (all_zero_object_id c.old_object_id) no_op
        (ok (ascii "delete " ++ c.ref_name ++ 32 ∷ c.old_object_id ++ 10 ∷ []))
    else ok
        (ascii "update " ++ c.ref_name ++ 32 ∷ c.new_object_id ++ 32 ∷ c.old_object_id ++ 10 ∷ [])

unfoldable pub is_malformed : ReceiveCommand → Bool
is_malformed c =
    not (valid_receive_ref_name c.ref_name)
    || is_nil c.old_object_id
    || is_nil c.new_object_id
    || not (eqb (length c.old_object_id) (length c.new_object_id))

abbrev pub followed : Bytes → Outcome Bytes → Outcome Bytes
followed l (ok rest) = ok (l ++ rest)
followed l (err x) = err x

abbrev pub preceded : Outcome Bytes → Outcome Bytes → Outcome Bytes
preceded (ok l) rest = followed l rest
preceded (err x) rest = err x

-- The loop of `BuildUpdateRefTransaction`, and the end of the transaction.
unfoldable pub update_refs : List Bytes → List ReceiveCommand → Outcome Bytes
unfolding ascii
update_refs seen [] = ok (ascii "prepare\ncommit\n")
update_refs seen (c ∷ cs) =
    let rest = update_refs (c.ref_name ∷ seen) cs in
    refuse_if (is_malformed c) invalid_command
      (refuse_if (contains c.ref_name seen) duplicate_ref (preceded (update_ref_line c) rest))

-- `BuildUpdateRefTransaction`
unfoldable pub build_update_ref_transaction : List ReceiveCommand → Outcome Bytes
unfolding update_refs ascii
build_update_ref_transaction [] = err empty_set
build_update_ref_transaction (c ∷ cs) = followed (ascii "start\n") (update_refs [] (c ∷ cs))
