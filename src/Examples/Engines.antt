-- ===== src/Examples/Engines.antt =====
-- A database whose tables are lists and whose statements all succeed, and a platform for texts in
-- ASCII.
use marketplace_server.Base.{
  ℕ, ◌≡◌, Bool, false, not, List, [], ◌∷◌, ◌++◌, none, some, any, filter, if◌then◌else◌, arith,
}
use marketplace_server.Platform.{Platform}
use marketplace_server.Sql.{Answer, answered, failed, Engine, count, map_where, pairs}
use marketplace_server.Database.Tables.{Tables}

pub answered_inj : {B : Type 0} (a b : B) → answered a ≡ answered b → b ≡ a
answered_inj a b h = cc

module _ {A : Type 0} where
  abbrev pub insert_row : (A → Bool) → A → List A → Answer (List A)
  insert_row clash a l =
      if any clash l then failed "UNIQUE constraint failed" else answered (l ++ a ∷ [])

  abbrev pub insert_or_skip : (A → Bool) → A → List A → Answer (List A)
  insert_or_skip clash a l = answered (if any clash l then l else l ++ a ∷ [])

  pub insert_row_lem :
      (clash : A → Bool) (a : A) (l m : List A)
      → insert_row clash a l ≡ answered m
      → (any clash l ≡ false) × (m ≡ l ++ a ∷ [])
  insert_row_lem clash a l m h = (ground arith, ground arith)

  pub update_rows_lem :
      (p : A → Bool) (f : A → A) (l m : List A) (n : ℕ)
      → ◌≡◌ {A = Answer (List A × ℕ)} (answered (map_where p f l, count p l)) (answered (m, n))
      → (m ≡ map_where p f l) × (n ≡ count p l)
  update_rows_lem p f l m n h = (ground arith, ground arith)

abbrev pub list_engine : Engine
list_engine = record {
  Table = λ A. List A;
  rows = λ l. l;
  select = λ p l. answered (filter p l);
  join = λ p l m. answered (pairs p l m);
  insert = insert_row;
  insert_ignore = insert_or_skip;
  update = λ p f l. answered (map_where p f l, count p l);
  delete = λ p l. answered (filter (λ a. not (p a)) l);
  advisory_lock = λ _. answered tt;
  rows-select = λ p l found h. answered_inj _ _ h;
  rows-join = λ p l m found h. answered_inj _ _ h;
  rows-insert = insert_row_lem;
  rows-insert_ignore = λ clash a l m h. answered_inj _ _ h;
  rows-update = update_rows_lem;
  rows-delete = λ p l m h. answered_inj _ _ h;
}

-- Text that is in lower case, UUIDs that are taken as written, and no encodings.
abbrev pub plain_platform : Platform
plain_platform = record {
  lower_rune = λ c. c;
  parse_uuid = λ s. some s;
  base64_decode = λ s. none;
  base64_encode = λ b. "";
  hmac_sha256 = λ pepper s. [];
}

abbrev pub empty_tables : Tables list_engine
empty_tables = record {
  users = [];
  namespaces = [];
  group_memberships = [];
  team_memberships = [];
  team_invitations = [];
  tokens = [];
  plugins = [];
  repositories = [];
  plugin_versions = [];
  plugin_version_history = [];
  orphan_cleanups = [];
  receive_batches = [];
  receive_intents = [];
  projection_artifacts = [];
  pointers = [];
  transitions = [];
  gc_jobs = [];
}
