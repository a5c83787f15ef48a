-- ===== src/Pg/Overflow.antt =====
-- packages/server-store/src/pg/link-metadata-store.ts: incrementOpens with the bound of its column.
-- `opens_count` is an `integer`, so Postgres refuses the UPDATE that would count past 2 ^ 31 - 1, which
-- an unlimited link can reach.
use aesmsg.Prelude.{
  ℕ, ◌+◌, ◌-◌, ◌^◌, ◌<◌, ◌≡◌, refl, Bool, false, ◌&&◌, Option, none, some, Text, ltb, arith,
  if◌then◌else◌,
}
use aesmsg.Dict
use aesmsg.Link.{LinkMetadata, is_active}
use aesmsg.Link.Cell.{Cell}
use aesmsg.Pg.{Tables, LinkRow}
use aesmsg.Pg
use aesmsg.Pg.Step.{cell}

abbrev pub max_integer : ℕ
max_integer = 2 ^ 31 - 1

-- The row that the UPDATE finds has no room for one more open.
abbrev overflows : ℕ → Option LinkRow → Bool
overflows now none = false
overflows now (some row) =
    is_active row.status && ltb now row.expires_at && ltb max_integer (row.opens_count + 1)

-- `none` is the throw "integer out of range", which rolls the statement back.
unfoldable pub increment_opens : ℕ → Text → Tables → Option (Option LinkMetadata × Tables)
unfolding Pg.increment_opens
increment_opens now id t =
    if overflows now (Dict.get id t.links) then none else some (Pg.increment_opens now id t)

-- The opens that are counted of a link.
abbrev pub count_of : Cell → ℕ
count_of c = elim c.row [ none ↦ 0 | some row ↦ row.opens_count ]

has_room :
    (now : ℕ) (row : Option LinkRow) (id : Text) (t : Tables)
    → Dict.get id t.links ≡ row
    → count_of (cell t id) < max_integer
    → overflows now row ≡ false
has_room now none id t e h = refl
has_room now (some row) id t e h =
    let low : row.opens_count < max_integer = rw e at h in ground (arith, low)

-- Below the bound the call is the statement without it.
pub increment_opens_lem :
    (now : ℕ) (id : Text) (t : Tables)
    → count_of (cell t id) < max_integer
    → increment_opens now id t ≡ some (Pg.increment_opens now id t)
unfolding increment_opens
increment_opens_lem now id t h =
    let room = has_room now (Dict.get id t.links) id t refl h in rw (room, increment_opens) refl
