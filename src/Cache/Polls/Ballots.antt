-- ===== src/Cache/Polls/Ballots.antt =====
-- internal/cache/polls.go: the rows of polls and of their options.
use whatsapp_mcp_docker.Base.{
  ℕ, ◌+◌, ◌≤◌, String, ◌≡◌, refl, sym, ap, ◌∙◌, inl, inr, Bool, true, false, Option, none, some,
  List, [], ◌∷◌, ◌++◌, map, arith, Bool-cases, All,
}
use mathlib.Core.List.{append_assoc, append-nil}
use whatsapp_mcp_docker.Base.Keys.{Key2, key2_eq}
use whatsapp_mcp_docker.Base.Sorting.{sort, insert_sorted, IsSorted}
use whatsapp_mcp_docker.Cache.Table.{find, find-upsert_self, merged}
use whatsapp_mcp_docker.Cache.Models.{Poll, PollOption, PollRow, OptionRow, Db}
use whatsapp_mcp_docker.Cache.Store.{is_empty, keep_if_empty, message_key}
use whatsapp_mcp_docker.Cache.Polls.{
  upsert_poll, get_poll, stored_option, poll_row, merge_poll, poll_of, without_options, option_row,
  insert_options, rows_of, option_of, idx_le, options_at,
}

-- The poll that a read of a stored poll gives: its ballot with the digests filled in, and the sender
-- that was known before where the write names none.
abbrev pub stored_poll : (String → String) → Poll → Option Poll → Poll
stored_poll hash_option p none = record p { options = map (stored_option hash_option) p.options }
stored_poll hash_option p (some old) = record p {
  options = map (stored_option hash_option) p.options;
  sender_jid = keep_if_empty p.sender_jid old.sender_jid;
}

sort-sorted {ℓ} : {A : Type ℓ} (le : A → A → Bool) (xs : List A) → IsSorted le xs → sort le xs ≡ xs
unfolding sort insert_sorted
sort-sorted le [] h = refl
sort-sorted le (x ∷ []) h = refl
sort-sorted le (x ∷ y ∷ xs) h = rw (sort-sorted le (y ∷ xs) h.1) (rw h.0.0 refl)

-- The rows of a ballot, from an index on.
abbrev rows_from : Key2 → ℕ → List PollOption → List OptionRow
rows_from k i [] = []
rows_from k i (o ∷ rest) = option_row k i o ∷ rows_from k (i + 1) rest

insert_options_lem :
    (hash_option : String → String) (k : Key2) (i : ℕ) (options : List PollOption)
    (rows : List OptionRow)
    → insert_options hash_option k i options rows
      ≡ rows ++ rows_from k i (map (stored_option hash_option) options)
insert_options_lem hash_option k i [] rows = sym (append-nil rows)
insert_options_lem hash_option k i (o ∷ rest) rows =
    insert_options_lem hash_option k (i + 1) rest _ ∙ append_assoc rows _ _

rows_of-append :
    (k : Key2) (xs ys : List OptionRow) → rows_of k (xs ++ ys) ≡ rows_of k xs ++ rows_of k ys
rows_of-append k [] ys = refl
rows_of-append k (x ∷ xs) ys = elim (Bool-cases (key2_eq.beq x.poll k)) [
  | inl e ↦ rw e (ap (◌∷◌ x) (rows_of-append k xs ys))
  | inr e ↦ rw e (rows_of-append k xs ys)
]

rows_of-without_options :
    (k : Key2) (rows : List OptionRow) → rows_of k (without_options k rows) ≡ []
rows_of-without_options k [] = refl
rows_of-without_options k (x ∷ rows) = elim (Bool-cases (key2_eq.beq x.poll k)) [
  | inl e ↦ rw e (rows_of-without_options k rows)
  | inr e ↦ rw (e, e) (rows_of-without_options k rows)
]

rows_of-rows_from :
    (k : Key2) (i : ℕ) (options : List PollOption)
    → rows_of k (rows_from k i options) ≡ rows_from k i options
rows_of-rows_from k i [] = refl
rows_of-rows_from k i (o ∷ rest) =
    rw ((key2_eq.beq_iff k k).1 refl)
      (ap (◌∷◌ (option_row k i o)) (rows_of-rows_from k (i + 1) rest))

All-rows_from :
    (k : Key2) (a : OptionRow) (i : ℕ) (options : List PollOption)
    → a.idx ≤ i
    → All (λ b. idx_le a b ≡ true) (rows_from k i options)
All-rows_from k a i [] h = tt
All-rows_from k a i (o ∷ rest) h = (ground arith, All-rows_from k a (i + 1) rest (omega arith))

rows_from-IsSorted :
    (k : Key2) (i : ℕ) (options : List PollOption) → IsSorted idx_le (rows_from k i options)
rows_from-IsSorted k i [] = tt
rows_from-IsSorted k i (o ∷ rest) = (
  All-rows_from k (option_row k i o) (i + 1) rest (omega arith),
  rows_from-IsSorted k (i + 1) rest,
)

option_of-rows_from :
    (k : Key2) (i : ℕ) (options : List PollOption) → map option_of (rows_from k i options) ≡ options
option_of-rows_from k i [] = refl
option_of-rows_from k i (o ∷ rest) = ap (◌∷◌ o) (option_of-rows_from k (i + 1) rest)

-- The options that are read are those that were inserted, by their index, and none of the deleted ones.
options_at-insert_options :
    (hash_option : String → String) (k : Key2) (options : List PollOption) (rows : List OptionRow)
    → options_at k (insert_options hash_option k 0 options (without_options k rows))
      ≡ map (stored_option hash_option) options
options_at-insert_options hash_option k options rows =
    let ballot = map (stored_option hash_option) options in
    rw (insert_options_lem hash_option k 0 options (without_options k rows)) (
      rw (rows_of-append k (without_options k rows) (rows_from k 0 ballot)) (
        rw (rows_of-without_options k rows, rows_of-rows_from k 0 ballot)
          (rw (sort-sorted idx_le (rows_from k 0 ballot) (rows_from-IsSorted k 0 ballot))
            (option_of-rows_from k 0 ballot))))

stored_poll_lem :
    (hash_option : String → String) (now : ℕ) (p : Poll) (o : Option PollRow)
    (old : List PollOption)
    → poll_of p.chat_jid p.message_id
        (map (stored_option hash_option) p.options)
        (some (merged (poll_row now p) (merge_poll now p) o))
      ≡ some (stored_poll hash_option p (poll_of p.chat_jid p.message_id old o))
stored_poll_lem hash_option now p none old = refl
stored_poll_lem hash_option now p (some row) old = refl

-- A poll that is written is read back with its whole ballot in order and no option of an older ballot,
-- whatever rows the table of options had, and a sender known before is kept where the write names none.
pub get_poll-upsert_poll :
    (hash_option : String → String) (now : ℕ) (p : Poll) (db : Db)
    → is_empty p.chat_jid ≡ false
    → is_empty p.message_id ≡ false
    → get_poll p.chat_jid p.message_id (upsert_poll hash_option now p db).1
      ≡ some (stored_poll hash_option p (get_poll p.chat_jid p.message_id db))
unfolding get_poll upsert_poll
get_poll-upsert_poll hash_option now p db h1 h2 =
    let k = message_key p.chat_jid p.message_id in
    rw (h1, h2)
      (rw (find-upsert_self k (poll_row now p) (merge_poll now p) db.polls) (
        rw (options_at-insert_options hash_option k p.options db.poll_options)
          (stored_poll_lem hash_option now p (find k db.polls) _)))
