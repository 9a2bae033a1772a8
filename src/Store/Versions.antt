-- ===== src/Store/Versions.antt =====
-- The pity table: a version belongs to one state, and versions only go up.
use gacha_engine_service.Prelude.{
  ℕ, ◌+◌, ◌≤◌, ◌≡◌, refl, ◌⊎◌, inl, inr, String, Bool, true, false, Option, ◌&&◌, none, some, List,
  [], ◌∷◌, arith, eq_iff, eq_refl, ◌==◌, if◌then◌else◌, Option-cases,
}
use gacha_engine_service.Prelude.Result.{ok, raise}
use gacha_engine_service.Schemas.{PityState, PitySnapshot}
use gacha_engine_service.Store.Rows.{PityRow, Db}
use gacha_engine_service.Store.Sql.{
  find_pity, insert_initial_pity, update_pity, update_pity_rows, group_fits, fits_bigint,
  arguments_fit,
}
use gacha_engine_service.Store.Methods.{
  store_error, version_conflict, get_snapshot, update_versioned, compare_and_set,
}

-- A version that has not gone up belongs to the same snapshot.
pub record Advances (old new : PitySnapshot) : Type 0 where
  pub up : old.version ≤ new.version
  pub same : new.version ≡ old.version → new ≡ old

pub record PityGrows (db db' : Db) : Type 0 where
  pub at_group :
      (user_id group : String) (s : PitySnapshot)
      → find_pity user_id group db.pity ≡ some s
      → (s' : PitySnapshot) × (find_pity user_id group db'.pity ≡ some s') × Advances s s'

Advances-refl : (s : PitySnapshot) → Advances s s
Advances-refl s = record { up = omega arith; same = λ _. refl }

pub PityGrows-of_eq : {db db' : Db} → db'.pity ≡ db.pity → PityGrows db db'
PityGrows-of_eq {db} e = record { at_group = λ user_id group s h. (s, rw e h, Advances-refl s) }

pub PityGrows-trans : {a b c : Db} → PityGrows a b → PityGrows b c → PityGrows a c
PityGrows-trans p q = record {
  at_group = λ user_id group s h.
      let (s', h', e) = p.at_group user_id group s h in
      let (s'', h'', e') = q.at_group user_id group s' h' in
      let u = e.up in
      let u' = e'.up in
      (
        s'',
        h'',
        record {
          up = omega arith;
          same = λ v. let f = e'.same (omega arith) in let g = e.same (omega arith) in cc;
        },
      );
}

-- One row for a user and a pity group, which the table's unique key keeps.
abbrev pub UniqueGroups : List PityRow → Type 0
UniqueGroups [] = Unit
UniqueGroups (row ∷ rows) =
    (find_pity row.user_id row.pity_group_id rows ≡ none) × UniqueGroups rows

module _ (user_id group : String) where
  pub insert_initial_pity-PityGrows :
      (now : ℕ) (db : Db) {db' : Db}
      → insert_initial_pity user_id group now db ≡ some db'
      → PityGrows db db'
  unfolding insert_initial_pity find_pity
  insert_initial_pity-PityGrows now db e = record {
    at_group = λ u g s h. (s, ground (arith, eq_iff user_id u, eq_iff group g), Advances-refl s);
  }

  module _ (version : ℕ) (next : PityState) (now : ℕ) where
    -- A row that is written gets the next version, and all others stay.
    written_row :
        (u g : String) (s : PitySnapshot) (rows : List PityRow)
        → find_pity u g rows ≡ some s
        → (find_pity u g (update_pity_rows user_id group version next now rows).0 ≡ some s)
          ⊎ (find_pity u g (update_pity_rows user_id group version next now rows).0
              ≡ some (record { state = next; version = s.version + 1 }))
    unfolding update_pity_rows find_pity
    written_row u g s [] h = cc
    written_row u g s (row ∷ rows) h = ground (arith, written_row u g s rows)

    table_written :
        (db : Db) {after : Db × Option PitySnapshot}
        → update_pity user_id group version next now db ≡ some after
        → after.0.pity ≡ (update_pity_rows user_id group version next now db.pity).0
    unfolding update_pity
    table_written db done = ground arith

    pub update_pity-PityGrows :
        (db : Db) {after : Db × Option PitySnapshot}
        → update_pity user_id group version next now db ≡ some after
        → PityGrows db after.0
    update_pity-PityGrows db {after} done = record {
      at_group = λ u g s h. elim (written_row u g s db.pity h) [
        | inl e ↦ (s, rw (table_written db done) e, Advances-refl s)
        | inr e ↦ (
          record { state = next; version = s.version + 1 },
          rw (table_written db done) e,
          record { up = omega arith; same = λ v. absurd (omega arith) },
        )
      ];
    }

    absent_row :
        (u g : String) (rows : List PityRow)
        → find_pity u g rows ≡ none
        → find_pity u g (update_pity_rows user_id group version next now rows).0 ≡ none
    unfolding update_pity_rows find_pity
    absent_row u g [] h = refl
    absent_row u g (row ∷ rows) h = ground (arith, absent_row u g rows)

    update_pity_rows-UniqueGroups :
        (rows : List PityRow)
        → UniqueGroups rows
        → UniqueGroups (update_pity_rows user_id group version next now rows).0
    unfolding update_pity_rows
    update_pity_rows-UniqueGroups [] u = tt
    update_pity_rows-UniqueGroups (row ∷ rows) u = ground (
      arith,
      absent_row row.user_id row.pity_group_id rows u.0,
      update_pity_rows-UniqueGroups rows u.1,
    )

    written_none :
        (rows : List PityRow)
        → find_pity user_id group rows ≡ none
        → (update_pity_rows user_id group version next now rows).1 ≡ none
    unfolding update_pity_rows find_pity
    written_none [] h = refl
    written_none (row ∷ rows) h = ground (arith, written_none rows)

    written_lem :
        (s : PitySnapshot) (rows : List PityRow)
        → UniqueGroups rows
        → find_pity user_id group rows ≡ some s
        → (update_pity_rows user_id group version next now rows).1 ≡ (
            if s.version == version
            then some (record { state = next; version = s.version + 1 })
            else none)
    unfolding update_pity_rows find_pity
    written_lem s [] u h = cc
    written_lem s (row ∷ rows) u h = ground (
      arith,
      written_lem s rows u.1,
      written_none rows,
      eq_iff row.user_id user_id,
      eq_iff row.pity_group_id group,
      u.0,
    )

  -- The tables after the first statement of the transaction: there is a row, the one that a read shows.
  record Prepared (db initial : Db) (s : PitySnapshot) : Type 0 where
    unique : UniqueGroups initial.pity
    found : find_pity user_id group initial.pity ≡ some s

  insert_initial_pity-Prepared :
      (now : ℕ) (db : Db) {initial : Db} {s : PitySnapshot}
      → UniqueGroups db.pity
      → (get_snapshot user_id group db).0 ≡ ok s
      → insert_initial_pity user_id group now db ≡ some initial
      → Prepared db initial s
  unfolding insert_initial_pity get_snapshot find_pity
  insert_initial_pity-Prepared now db u h e = record {
    unique = ground arith;
    found = ground (arith, eq_refl user_id, eq_refl group);
  }

  insert_initial_pity_fails :
      (now : ℕ) (db : Db)
      → insert_initial_pity user_id group now db ≡ none
      → group_fits group ≡ false
  unfolding insert_initial_pity
  insert_initial_pity_fails now db e = ground arith

  insert_initial_pity_fits :
      (now : ℕ) (db : Db) {initial : Db}
      → insert_initial_pity user_id group now db ≡ some initial
      → group_fits group ≡ true
  unfolding insert_initial_pity
  insert_initial_pity_fits now db e = ground arith

  module _ (version : ℕ) (next : PityState) (now : ℕ) where
    abbrev committed : PitySnapshot
    committed = record { state = next; version = version + 1 }

    found_after :
        (s : PitySnapshot) (rows : List PityRow)
        → find_pity user_id group rows ≡ some s
        → find_pity user_id group (update_pity_rows user_id group version next now rows).0
          ≡ (if s.version == version then some committed else some s)
    unfolding update_pity_rows find_pity
    found_after s [] h = cc
    found_after s (row ∷ rows) h = ground (arith, found_after s rows)

    -- Whether the database takes the statements over the snapshot that a read shows.
    abbrev pub accepts : PitySnapshot → Bool
    accepts s =
        group_fits group
        && arguments_fit version next
        && (if s.version == version then fits_bigint (version + 1) else true)

    update_pity_lem :
        (s : PitySnapshot) (initial : Db) {db : Db}
        → Prepared db initial s
        → update_pity user_id group version next now initial ≡ (
            if arguments_fit version next
              && (if s.version == version then fits_bigint (version + 1) else true)
            then some (
              record initial {
                pity = (update_pity_rows user_id group version next now initial.pity).0;
              },
              if s.version == version then some committed else none,
            )
            else none)
    unfolding update_pity
    update_pity_lem s initial p =
        let written = written_lem version next now s initial.pity p.unique p.found in ground arith

    -- Where the table has one row for a user and a group, and a read shows `s`: the database takes a
    -- compare-and-set where the group has 1 to 100 characters, the counters fit an integer and the
    -- versions a bigint, and else `GachaStateStoreError` is raised. One that it takes at the version of
    -- `s` returns the new state under the next version, which a read then shows; at any other version
    -- it raises a conflict that names the version of `s`. Where it raises, a read shows `s` again.
    pub compare_and_set_lem :
        (db : Db) {s : PitySnapshot}
        → UniqueGroups db.pity
        → (get_snapshot user_id group db).0 ≡ ok s
        → ((compare_and_set user_id group version next now db).0 ≡ (
            if accepts s
            then if s.version == version
              then ok committed
              else raise (version_conflict (some s.version))
            else raise store_error))
          × ((get_snapshot user_id group (compare_and_set user_id group version next now db).1).0
              ≡ ok (if accepts s && s.version == version then committed else s))
    unfolding compare_and_set update_versioned get_snapshot
    compare_and_set_lem db {s} u h =
        elim (Option-cases (insert_initial_pity user_id group now db)) [
          | inl e ↦ let refused = insert_initial_pity_fails now db e in (ground arith, ground arith)
          | inr (initial, e) ↦
              let fits = insert_initial_pity_fits now db e in
              let p = insert_initial_pity-Prepared now db u h e in
              let updated = update_pity_lem s initial p in
              let after = found_after s initial.pity p.found in (ground arith, ground arith)
        ]
