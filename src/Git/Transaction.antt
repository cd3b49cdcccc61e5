-- ===== src/Git/Transaction.antt =====
-- mod/git/receive.go: the transaction that is built from the commands that were parsed.
use marketplace_server.Base.{
  [], ◌∷◌, refl, arith, List, Bool, ℕ, all, ok, true, ◌≡◌, err, false, not, ◌&&◌, any,
}
use marketplace_server.Git.Commands.{
  Outcome, ReceiveCommand, parse_fields, parse_from, parse_line, parse_receive_commands,
  update_refs, build_update_ref_transaction, is_malformed, update_ref_line, all_zero_object_id,
  valid_object_id,
}
use marketplace_server.Git.Bytes.{Bytes, contains, split}

abbrev pub is_done : {A : Type 0} → Outcome A → Bool
is_done (ok _) = true
is_done (err _) = false

-- A command that neither creates, moves nor deletes its reference.
abbrev pub is_no_op : ReceiveCommand → Bool
is_no_op c = all_zero_object_id c.new_object_id && all_zero_object_id c.old_object_id

-- No two commands are about one reference, nor about one of the given ones.
abbrev pub is_distinct : List Bytes → List ReceiveCommand → Bool
is_distinct seen [] = true
is_distinct seen (c ∷ cs) = not (contains c.ref_name seen) && is_distinct (c.ref_name ∷ seen) cs

fields-formed :
    (n : ℕ) (fs : List Bytes) (c : ReceiveCommand)
    → parse_fields n fs ≡ ok c
    → is_malformed c ≡ false
unfolding parse_fields is_malformed valid_object_id
fields-formed n (old ∷ new ∷ ref ∷ []) c h = ground arith
fields-formed n [] c h = cc
fields-formed n (a ∷ []) c h = cc
fields-formed n (a ∷ b ∷ []) c h = cc
fields-formed n (a ∷ b ∷ d ∷ e ∷ fs) c h = cc

line-formed :
    (n : ℕ) (l : Bytes) (c : ReceiveCommand) → parse_line n l ≡ ok c → is_malformed c ≡ false
unfolding parse_line
line-formed n l c h = fields-formed n (split 32 l) c h

parse_from-distinct :
    (n : ℕ) (seen ls : List Bytes) (cs : List ReceiveCommand)
    → parse_from n seen ls ≡ ok cs
    → (all (λ c. not (is_malformed c)) cs ≡ true) × (is_distinct seen cs ≡ true)
unfolding parse_from
parse_from-distinct n seen [] [] h = (refl, refl)
parse_from-distinct n seen [] (c ∷ cs) h = absurd (cc h)
parse_from-distinct n seen (l ∷ ls) [] h = absurd (ground arith)
parse_from-distinct n seen (l ∷ ls) (c ∷ cs) h =
    let first : parse_line n l ≡ ok c = ground arith in
    let (formed, distinct) = parse_from-distinct n (c.ref_name ∷ seen) ls cs (ground arith) in
    (ground (arith, line-formed n l c first), ground arith)

update_refs-done :
    (seen : List Bytes) (cs : List ReceiveCommand)
    → all (λ c. not (is_malformed c)) cs ≡ true
    → is_distinct seen cs ≡ true
    → is_done (update_refs seen cs) ≡ not (any is_no_op cs)
unfolding update_refs update_ref_line
update_refs-done seen [] f d = refl
update_refs-done seen (c ∷ cs) f d = ground (arith, update_refs-done (c.ref_name ∷ seen) cs)

-- The commands that `ParseReceiveCommands` accepts are well formed and about different references,
-- and `BuildUpdateRefTransaction` builds a transaction from them exactly when none of them is a
-- no-op: there is no other error.
pub build_update_ref_transaction-parse_receive_commands :
    (n : ℕ) (ls : List Bytes) (cs : List ReceiveCommand)
    → parse_receive_commands n ls ≡ ok cs
    → (all (λ c. not (is_malformed c)) cs ≡ true)
      × (is_distinct [] cs ≡ true)
      × (is_done (build_update_ref_transaction cs) ≡ not (any is_no_op cs))
unfolding parse_receive_commands build_update_ref_transaction
build_update_ref_transaction-parse_receive_commands n ls [] h = absurd (ground arith)
build_update_ref_transaction-parse_receive_commands n ls (c ∷ cs) h =
    let parsed : parse_from n [] ls ≡ ok (c ∷ cs) = ground arith in
    let (formed, distinct) = parse_from-distinct n [] ls (c ∷ cs) parsed in
    (formed, distinct, ground (arith, update_refs-done [] (c ∷ cs) formed distinct))
