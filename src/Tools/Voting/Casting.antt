-- ===== src/Tools/Voting/Casting.antt =====
-- internal/tools/polls.go: what `vote_poll` sends and stores.
use whatsapp_mcp_docker.Base.{
  ℕ, ◌/◌, ◌≤◌, ◌<◌, String, ◌≡◌, refl, sym, ◌∙◌, ◌⊎◌, inl, inr, Bool, true, false, ◌||◌, Option,
  none, some, List, map, arith, leb, ◌==◌, if◌then◌else◌, Bool-cases, length, all,
}
use mathlib.Core.List.{Sublist}
use whatsapp_mcp_docker.Base.Texts.{trim_space, has}
use whatsapp_mcp_docker.Base.Keys.{key3_eq}
use whatsapp_mcp_docker.Cache.Table.{find, find-upsert_self, merged}
use whatsapp_mcp_docker.Cache.Models.{Poll, PollVote, VoteRow, Db}
use whatsapp_mcp_docker.Cache.Store.{is_empty, unix_seconds}
use whatsapp_mcp_docker.Cache.Polls.{get_poll, upsert_poll_vote, vote_key, vote_row, newer_vote}
use whatsapp_mcp_docker.Tools.Voting.{
  MatchResult, match_poll_options, BuildOutcome, SendOutcome, VoteWorld, VoteAnswer, Outcome,
  own_vote, mirror_own_vote, after_send, after_build, after_match, after_poll, allows, has_info,
  vote_poll,
}
use whatsapp_mcp_docker.Tools.Voting.Matching.{match_poll_options_lem}

abbrev pub is_voted : VoteAnswer → Bool
is_voted (VoteAnswer.voted id selected) = true
is_voted _ = false

some-injective : {A : Type 0} {x y : A} → some x ≡ some y → x ≡ y
some-injective h = cc

-- The row that the database has for the voter after the vote: the one of the vote, at its second, unless
-- the row that was there is of a later second.
abbrev pub IsKept : List String → ℕ → Option VoteRow → Option VoteRow → Type 0
IsKept hashes second old new =
    ((new ≡ some (record { selected_hashes = hashes; ts = second }))
      × ((old ≡ none) ⊎ (row : VoteRow) × (old ≡ some row) × (row.ts ≤ second)))
    ⊎ ((row : VoteRow) × (old ≡ some row) × (second < row.ts) × (new ≡ some row))

-- The row of this device's vote on the poll.
abbrev pub own_row : VoteWorld → Poll → Db → Option VoteRow
own_row w p db = find (vote_key p.chat_jid p.message_id w.own_jid.bare) db.poll_votes

-- The selection was sent, and the database has the vote of this device.
pub record IsCast (w : VoteWorld) (p : Poll) (selected : List String) (db : Db) (o : Outcome)
    : Type 0 where
  pub id : String
  pub ts : ℕ
  pub answers : w.send ≡ SendOutcome.sent id ts
  pub says : o.answer ≡ VoteAnswer.voted id selected
  pub sends : o.sent ≡ some selected
  pub stores :
      IsKept
        (map w.hash_option selected)
        ((if ts == 0 then w.now else ts) / 1000)
        (own_row w p db)
        (own_row w p o.db)

-- The device does not know its own address, or the vote's key has an empty part.
abbrev pub lacks_key : VoteWorld → Poll → Bool
lacks_key w p =
    w.own_jid.is_nothing
    || (is_empty p.chat_jid || (is_empty p.message_id || is_empty w.own_jid.bare))

-- The selection was sent, but this device's vote could not be recorded: the database is as before.
abbrev pub IsUnrecorded : VoteWorld → Poll → List String → Db → Outcome → Type 0
IsUnrecorded w p selected db o =
    (lacks_key w p ≡ true)
    × (o.sent ≡ some selected)
    × (o.answer ≡ VoteAnswer.internal)
    × (o.db ≡ db)

-- Nothing was sent, it does not say that it was voted, and the database is as before.
abbrev pub IsRefused : Db → Outcome → Type 0
IsRefused db o = (o.sent ≡ none) × (is_voted o.answer ≡ false) × (o.db ≡ db)

newer_vote-IsKept :
    (v : PollVote) (old : Option VoteRow)
    → IsKept v.selected_hashes
        (unix_seconds v.timestamp)
        old
        (some (merged (vote_row v) (newer_vote v) old))
newer_vote-IsKept v none = inl (refl, inl refl)
newer_vote-IsKept v (some row) = elim (Bool-cases (leb row.ts (unix_seconds v.timestamp))) [
  | inl e ↦ rw e (inl (refl, inr (row, refl, ground arith)))
  | inr e ↦ rw e (inr (row, refl, ground arith, refl))
]

abbrev TryVote : VoteWorld → Poll → List String → ℕ → Db → Bool × Db → Type 0
TryVote w p selected ts db r =
    ((r ≡ (false, db)) × (lacks_key w p ≡ true))
    ⊎ ((db' : Db) × (r ≡ (true, db'))
        × IsKept (map w.hash_option selected) (unix_seconds ts) (own_row w p db) (own_row w p db'))

mirror_cases :
    (w : VoteWorld) (p : Poll) (selected : List String) (ts : ℕ) (db : Db)
    → TryVote w p selected ts db (mirror_own_vote w p selected ts db)
unfolding mirror_own_vote upsert_poll_vote
mirror_cases w p selected ts db = elim (Bool-cases w.own_jid.is_nothing) [
  | inl e ↦ rw e (inl (refl, refl))
  | inr e ↦
      elim (Bool-cases
        (is_empty p.chat_jid || (is_empty p.message_id || is_empty w.own_jid.bare))) [
          | inl c ↦ rw e (rw c (inl (refl, refl)))
          | inr c ↦
              let v = own_vote w p selected ts in
              let key = vote_key p.chat_jid p.message_id w.own_jid.bare in
              let kept =
                rw (← find-upsert_self key (vote_row v) (newer_vote v) db.poll_votes) at
                  (newer_vote-IsKept v (own_row w p db)) in
              rw e (rw c (inr (_, refl, kept)))
        ]
]

-- How a vote with a selection ends.
abbrev Ends : VoteWorld → Poll → List String → Db → Outcome → Type 0
Ends w p selected db o =
    IsRefused db o ⊎ (IsUnrecorded w p selected db o ⊎ IsCast w p selected db o)

after_send_lem :
    (w : VoteWorld) (p : Poll) (selected : List String) (db : Db) (s : SendOutcome)
    → w.send ≡ s
    → Ends w p selected db (after_send w p selected s db)
after_send_lem w p selected db (SendOutcome.sent id ts) h =
    elim (mirror_cases w p selected (if ts == 0 then w.now else ts) db) [
      | inl (e, l) ↦ rw e (inr (inl (l, refl, refl, refl)))
      | inr (db', e, k) ↦ rw e (
          inr
            (inr (record { id = id; ts = ts; answers = h; says = refl; sends = refl; stores = k })))
    ]
after_send_lem w p selected db SendOutcome.not_logged_in h = inl (refl, refl, refl)
after_send_lem w p selected db SendOutcome.failed h = inl (refl, refl, refl)

after_build_lem :
    (w : VoteWorld) (p : Poll) (selected : List String) (db : Db) (b : BuildOutcome)
    → Ends w p selected db (after_build w p selected b db)
after_build_lem w p selected db BuildOutcome.built = elim (Bool-cases (w.parses p.chat_jid)) [
  | inl e ↦ rw e (after_send_lem w p selected db w.send refl)
  | inr e ↦ rw e (inl (refl, refl, refl))
]
after_build_lem w p selected db BuildOutcome.not_logged_in = inl (refl, refl, refl)
after_build_lem w p selected db BuildOutcome.secret_not_found = inl (refl, refl, refl)
after_build_lem w p selected db BuildOutcome.failed = inl (refl, refl, refl)

-- A selection from a stored poll: as many options as were asked for, each of them asked for (up to the space
-- around it), in the order of the ballot, and no more than the poll allows; 0 is no limit.
pub record IsChoice (chat_arg message_arg : String) (options : List String) (db : Db) (p : Poll)
    (selected : List String) : Type 0 where
  pub stored : get_poll (trim_space chat_arg) (trim_space message_arg) db ≡ some p
  pub as_many : length selected ≡ length options
  pub asked : all (λ name. has name (map trim_space options)) selected ≡ true
  pub on_ballot : Sublist selected (map (λ o. o.name) p.options)
  pub allowed : (p.selectable_count ≡ 0) ⊎ (length selected ≤ p.selectable_count)

allows_lem :
    (p : Poll) (selected : List String)
    → allows p selected ≡ true
    → (p.selectable_count ≡ 0) ⊎ (length selected ≤ p.selectable_count)
allows_lem p selected h = ground arith

after_match_lem :
    (w : VoteWorld) (p : Poll) (m : MatchResult) (db : Db)
    → let o = after_match w p m db in
      IsRefused db o
      ⊎ ((selected : List String) × (m ≡ MatchResult.selection selected)
          × (allows p selected ≡ true)
          × (o ≡ after_build w p selected w.build db))
after_match_lem w p (MatchResult.not_on_ballot name) db = inl (refl, refl, refl)
after_match_lem w p (MatchResult.twice name) db = inl (refl, refl, refl)
after_match_lem w p (MatchResult.selection selected) db = elim (Bool-cases (allows p selected)) [
  | inr e ↦ rw e (inl (refl, refl, refl))
  | inl e ↦ elim (Bool-cases (has_info w p)) [
    | inr c ↦ rw e (rw c (inl (refl, refl, refl)))
    | inl c ↦ inr (selected, refl, e, rw e (rw c refl))
  ]
]

-- A vote was refused, or it goes on with a choice.
abbrev Chosen : VoteWorld → String → String → List String → Db → Outcome → Type 0
Chosen w chat_arg message_arg options db o =
    IsRefused db o
    ⊎ ((p : Poll) × (selected : List String) × IsChoice chat_arg message_arg options db p selected
        × (o ≡ after_build w p selected w.build db))

after_poll_lem :
    (w : VoteWorld) (chat_arg message_arg : String) (options : List String) (db : Db)
    (found : Option Poll)
    → get_poll (trim_space chat_arg) (trim_space message_arg) db ≡ found
    → Chosen w chat_arg message_arg options db (after_poll w found options db)
after_poll_lem w chat_arg message_arg options db none h = inl (refl, refl, refl)
after_poll_lem w chat_arg message_arg options db (some p) h =
    elim (after_match_lem w p (match_poll_options p options) db) [
      | inl r ↦ inl r
      | inr (selected, m, a, e) ↦
          let (number, from, order) = match_poll_options_lem p options selected m in
          let choice : IsChoice chat_arg message_arg options db p selected = record {
            stored = h;
            as_many = number;
            asked = from;
            on_ballot = order;
            allowed = allows_lem p selected a;
          } in
          inr (p, selected, choice, e)
    ]

vote_poll-Chosen :
    (w : VoteWorld) (chat_arg message_arg : String) (options : List String) (db : Db)
    → Chosen w chat_arg message_arg options db (vote_poll w chat_arg message_arg options db)
unfolding vote_poll
vote_poll-Chosen w chat_arg message_arg options db =
    elim (Bool-cases (is_empty (trim_space chat_arg))) [
      | inl e ↦ rw e (inl (refl, refl, refl))
      | inr e ↦ elim (Bool-cases (is_empty (trim_space message_arg))) [
        | inl d ↦ rw e (rw d (inl (refl, refl, refl)))
        | inr d ↦ rw e (rw d (after_poll_lem w chat_arg message_arg options db _ refl))
      ]
    ]

-- A vote ends in one of three ways. Nothing was sent, and the database is as before. Or a selection of a
-- stored poll was sent, but this device's own address is not known or the vote's key has an empty part: the
-- answer is an internal error, and the database is as before. Or the selection was sent, the answer has the message's id and the selection,
-- and the database has a row for this device's vote: the digests of the selection at the vote's second,
-- unless the row that was there is of a later second, which then stays.
pub vote_poll_lem :
    (w : VoteWorld) (chat_arg message_arg : String) (options : List String) (db : Db)
    → let o = vote_poll w chat_arg message_arg options db in
      IsRefused db o
      ⊎ ((p : Poll) × (selected : List String) × IsChoice chat_arg message_arg options db p selected
          × (IsUnrecorded w p selected db o ⊎ IsCast w p selected db o))
vote_poll_lem w chat_arg message_arg options db =
    elim (vote_poll-Chosen w chat_arg message_arg options db) [
      | inl r ↦ inl r
      | inr (p, selected, c, e) ↦ elim (after_build_lem w p selected db w.build) [
        | inl r ↦ rw e (inl r)
        | inr k ↦ rw e (inr (p, selected, c, k))
      ]
    ]

-- What is sent is a selection from the stored poll that the arguments name: it has as many options as were
-- asked for, each asked for up to the space around it, in the order of the ballot, and no more than the
-- poll's number of selections, where that is not 0.
pub vote_poll-sent :
    (w : VoteWorld) (chat_arg message_arg : String) (options : List String) (db : Db)
    (selected : List String)
    → (vote_poll w chat_arg message_arg options db).sent ≡ some selected
    → (p : Poll) × IsChoice chat_arg message_arg options db p selected
vote_poll-sent w chat_arg message_arg options db selected h =
    elim (vote_poll_lem w chat_arg message_arg options db) [
      | inl r ↦ let none' = r.0 in absurd cc
      | inr (p, taken, c, inl u) ↦
          let same : taken ≡ selected = some-injective (sym u.1 ∙ h) in (p, rw same at c)
      | inr (p, taken, c, inr k) ↦
          let same : taken ≡ selected = some-injective (sym k.sends ∙ h) in (p, rw same at c)
    ]
