-- ===== src/Cache/Contacts.antt =====
-- internal/cache/upsert.go: the writes of contacts, their presence, nicknames and aliases.
use whatsapp_mcp_docker.Base.{ℕ, String, Bool, false, ◌||◌, none, some, ◌==◌, if◌then◌else◌}
use whatsapp_mcp_docker.Base.Keys.{string_eq, key2_eq}
use whatsapp_mcp_docker.Cache.Table.{upsert, delete}
use whatsapp_mcp_docker.Cache.Models.{Contact, Nickname, ContactRow, NicknameRow}
use whatsapp_mcp_docker.Cache.Store.{Write, key_required, is_empty, keep_if_empty}

abbrev pub contact_row : ℕ → Contact → ContactRow
contact_row now c = record {
  push_name = c.push_name;
  business_name = c.business_name;
  first_name = c.first_name;
  full_name = c.full_name;
  updated_at = now;
  presence_online = false;
  presence_last_seen_ts = 0;
  presence_updated_at = 0;
}

abbrev pub merge_contact : ℕ → Contact → ContactRow → ContactRow
merge_contact now c row = record row {
  push_name = keep_if_empty c.push_name row.push_name;
  business_name = keep_if_empty c.business_name row.business_name;
  first_name = keep_if_empty c.first_name row.first_name;
  full_name = keep_if_empty c.full_name row.full_name;
  updated_at = now;
}

unfoldable pub upsert_contact : ℕ → Contact → Write
upsert_contact now c db = if is_empty c.jid then (some key_required, db) else (
  none,
  record db { contacts = upsert c.jid (contact_row now c) (merge_contact now c) db.contacts },
)

unfoldable pub upsert_jid_alias : ℕ → String → String → Write
upsert_jid_alias now lid_jid pn_jid db =
    if is_empty lid_jid || is_empty pn_jid then (none, db) else (
      none,
      record db {
        jid_aliases =
            upsert (record { first = lid_jid; second = pn_jid }) now (λ _. now) db.jid_aliases;
      },
    )

unfoldable pub upsert_nickname : ℕ → Nickname → Write
upsert_nickname now n db =
    let row : NicknameRow = record { nickname = n.nickname; note = n.note; updated_at = now } in
    if is_empty n.jid
    then (some key_required, db)
    else (none, record db { nicknames = upsert n.jid row (λ _. row) db.nicknames })

unfoldable pub delete_nickname : String → Write
delete_nickname jid db =
    if is_empty jid
    then (some key_required, db)
    else (none, record db { nicknames = delete jid db.nicknames })

abbrev pub presence_row : ℕ → Bool → ℕ → ContactRow
presence_row now online last_seen = record {
  push_name = "";
  business_name = "";
  first_name = "";
  full_name = "";
  updated_at = now;
  presence_online = online;
  presence_last_seen_ts = last_seen;
  presence_updated_at = now;
}

abbrev pub merge_presence : ℕ → Bool → ℕ → ContactRow → ContactRow
merge_presence now online last_seen row = record row {
  presence_online = online;
  presence_last_seen_ts = if last_seen == 0 then row.presence_last_seen_ts else last_seen;
  presence_updated_at = now;
}

unfoldable pub upsert_presence : ℕ → String → Bool → ℕ → Write
upsert_presence now jid online last_seen db = if is_empty jid then (some key_required, db) else (
  none,
  record db {
    contacts =
        upsert jid (presence_row now online last_seen) (merge_presence now online last_seen)
          db.contacts;
  },
)
