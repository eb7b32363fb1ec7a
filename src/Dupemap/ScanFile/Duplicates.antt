-- ===== src/Dupemap/ScanFile/Duplicates.antt =====
-- Which files `scan_file` of src/dupemap.c reports or deletes.
use magicrescue.Base.{
  true, false, ◌&&◌, ◌≡◌, ◌⊎◌, inl, inr, refl, ap, ◌∙◌, none, some, List, [], ◌∷◌, ◌++◌, Any,
  Option-cases, Bool-cases, arith,
}
use magicrescue.Dupemap.Checksum.{Checksum}
use magicrescue.Dupemap.Dbm.{Dbm}
use magicrescue.Dupemap.Mode.{mode_readdb, mode_writedb, mode_tempdb}
use magicrescue.Dupemap.ScanFile.{
  File, Scan, Options, has_mode, file_key, report, remove, csdb_exists, csdb_store, scan_key,
  scan_file, scan_files,
}

-- One of the files has the checksum `key` and passes the guards.
abbrev pub Seen : Options → Checksum → List File → Type 0
Seen opt key files = Any (λ file. file_key opt file ≡ some key) files

module _ {W : Type 0} (dbm : Dbm W) (opt : Options) where
  csdb_exists_sound :
      (db : W) (key : Checksum) → csdb_exists dbm db key ≡ false → dbm.fetch key db ≡ none
  unfolding csdb_exists
  csdb_exists_sound db key e = elim (Option-cases (dbm.fetch key db)) [
    | inl z ↦ z
    | inr (v, z) ↦ absurd (ground (arith, z))
  ]

  csdb_exists-store : (db : W) (key : Checksum) → csdb_exists dbm (csdb_store dbm db key) key ≡ true
  unfolding csdb_exists csdb_store
  csdb_exists-store db key = elim (Option-cases (dbm.fetch key (dbm.store key [] db))) [
    | inl z ↦ absurd (dbm.fetch-store key [] db z)
    | inr (v, z) ↦ rw (z, csdb_exists) refl
  ]

  csdb_exists-keep :
      (db : W) (key key' : Checksum)
      → csdb_exists dbm db key ≡ true
      → csdb_exists dbm (csdb_store dbm db key') key ≡ true
  unfolding csdb_exists csdb_store
  csdb_exists-keep db key key' e = elim (Option-cases (dbm.fetch key (dbm.store key' [] db))) [
    | inl z ↦ absurd (ground (arith, dbm.store_keeps key key' [] db z))
    | inr (v, z) ↦ rw (z, csdb_exists) refl
  ]

  csdb_exists-only :
      (db : W) (key key' : Checksum)
      → csdb_exists dbm (csdb_store dbm db key') key ≡ true
      → (csdb_exists dbm db key ≡ true) ⊎ (key' ≡ key)
  unfolding csdb_exists csdb_store
  csdb_exists-only db key key' e = elim (Option-cases (dbm.fetch key db)) [
    | inr (v, z) ↦ inl (rw (z, csdb_exists) refl)
    | inl z ↦ elim (Option-cases (dbm.fetch key (dbm.store key' [] db))) [
      | inl n ↦ absurd (ground (arith, n))
      | inr (x, y) ↦ inr (dbm.store_only key key' [] x db z y)
    ]
  ]

  module _ (temp : has_mode opt mode_tempdb ≡ true) where
    scan_file-old :
        (f : File) (s : Scan W) (key : Checksum)
        → csdb_exists dbm s.db key ≡ true
        → csdb_exists dbm (scan_file dbm opt f s).db key ≡ true
    unfolding scan_file scan_key
    scan_file-old f s key e = elim (Option-cases (file_key opt f)) [
      | inl z ↦ rw (z, scan_file) e
      | inr (k, z) ↦ elim (Bool-cases (csdb_exists dbm s.db k)) [
        | inl old ↦ rw (z, scan_file, temp, scan_key, old) e
        | inr new ↦ rw (z, scan_file, temp, scan_key, new) (csdb_exists-keep s.db key k e)
      ]
    ]

    scan_file-stores :
        (f : File) (s : Scan W) (key : Checksum)
        → file_key opt f ≡ some key
        → csdb_exists dbm (scan_file dbm opt f s).db key ≡ true
    unfolding scan_file scan_key
    scan_file-stores f s key z = elim (Bool-cases (csdb_exists dbm s.db key)) [
      | inl old ↦ rw (z, scan_file, temp, scan_key, old) old
      | inr new ↦ rw (z, scan_file, temp, scan_key, new) (csdb_exists-store s.db key)
    ]

    scan_file-only :
        (f : File) (s : Scan W) (key : Checksum)
        → csdb_exists dbm (scan_file dbm opt f s).db key ≡ true
        → (csdb_exists dbm s.db key ≡ true) ⊎ (file_key opt f ≡ some key)
    unfolding scan_file scan_key
    scan_file-only f s key e = elim (Option-cases (file_key opt f)) [
      | inl z ↦ inl (rw (z, scan_file) at e)
      | inr (k, z) ↦ elim (Bool-cases (csdb_exists dbm s.db k)) [
        | inl old ↦ inl (rw (z, scan_file, temp, scan_key, old) at e)
        | inr new ↦
            elim (csdb_exists-only s.db key k (rw (z, scan_file, temp, scan_key, new) at e)) [
              | inl h ↦ inl h
              | inr same ↦ inr (z ∙ ap some same)
            ]
      ]
    ]

    scan_files-stores :
        (files : List File) (s : Scan W) (key : Checksum)
        → Seen opt key files ⊎ (csdb_exists dbm s.db key ≡ true)
        → csdb_exists dbm (scan_files dbm opt files s).db key ≡ true
    unfolding scan_files
    scan_files-stores [] s key (inl h) = absurd h
    scan_files-stores [] s key (inr h) = h
    scan_files-stores (f ∷ files) s key (inl (inl h)) =
        scan_files-stores files (scan_file dbm opt f s) key (inr (scan_file-stores f s key h))
    scan_files-stores (f ∷ files) s key (inl (inr h)) =
        scan_files-stores files (scan_file dbm opt f s) key (inl h)
    scan_files-stores (f ∷ files) s key (inr h) =
        scan_files-stores files (scan_file dbm opt f s) key (inr (scan_file-old f s key h))

    scan_files-only :
        (files : List File) (s : Scan W) (key : Checksum)
        → csdb_exists dbm (scan_files dbm opt files s).db key ≡ true
        → Seen opt key files ⊎ (csdb_exists dbm s.db key ≡ true)
    unfolding scan_files
    scan_files-only [] s key e = inr e
    scan_files-only (f ∷ files) s key e =
        elim (scan_files-only files (scan_file dbm opt f s) key e) [
          | inl h ↦ inl (inr h)
          | inr h ↦ elim (scan_file-only f s key h) [ inl old ↦ inr old | inr z ↦ inl (inl z) ]
        ]

  scan_files-append :
      (files : List File) (f : File) (s : Scan W)
      → scan_files dbm opt (files ++ f ∷ []) s ≡ scan_file dbm opt f (scan_files dbm opt files s)
  unfolding scan_files
  scan_files-append [] f s = refl
  scan_files-append (g ∷ files) f s = scan_files-append files f (scan_file dbm opt g s)

  -- With a temporary database, empty at the start, a file that passes the guards is reported and
  -- removed, as the mode says, exactly if a file with its checksum was scanned before it, and that scan
  -- left it alone if none was. A file that is named twice is the second time one that came before. The
  -- database keeps apart the keys that it stores, as `Dbm` says.
  pub scan_files-duplicates :
      (files : List File) (f : File) (s : Scan W) (key : Checksum)
      → has_mode opt mode_tempdb ≡ true
      → ((k : Checksum) → csdb_exists dbm s.db k ≡ false)
      → file_key opt f ≡ some key
      → (Seen opt key files
          × (scan_files dbm opt (files ++ f ∷ []) s).events
            ≡ (scan_files dbm opt files s).events ++ (report opt f.name ++ remove opt f.name))
        ⊎ (¬ Seen opt key files
            × (scan_files dbm opt (files ++ f ∷ []) s).events ≡ (scan_files dbm opt files s).events)
  unfolding scan_file scan_key
  scan_files-duplicates files f s key temp fresh z =
      elim (Bool-cases (csdb_exists dbm (scan_files dbm opt files s).db key)) [
        | inl old ↦ inl (
          elim (scan_files-only temp files s key old) [
            | inl h ↦ h
            | inr e ↦ absurd (ground (arith, fresh key))
          ],
          rw (scan_files-append files f s, z, scan_file, temp, scan_key, old) refl,
        )
        | inr new ↦ inr (
          (λ h. ground (arith, scan_files-stores temp files s key (inl h))),
          rw (scan_files-append files f s, z, scan_file, temp, scan_key, new) refl,
        )
      ]

  scan_file-readdb :
      (f : File) (s : Scan W)
      → has_mode opt mode_tempdb ≡ false
      → has_mode opt mode_writedb ≡ false
      → (scan_file dbm opt f s).db ≡ s.db
  unfolding scan_file scan_key
  scan_file-readdb f s temp write = elim (Option-cases (file_key opt f)) [
    | inl z ↦ rw (z, scan_file) refl
    | inr (k, z) ↦ elim (Bool-cases (has_mode opt mode_readdb && csdb_exists dbm s.db k)) [
      | inl old ↦ rw (z, scan_file, temp, write, scan_key, old) refl
      | inr new ↦ rw (z, scan_file, temp, write, scan_key, new) refl
    ]
  ]

  -- A mode that does not write leaves the database as it was, whatever files are scanned.
  pub scan_files-readdb :
      (files : List File) (s : Scan W)
      → has_mode opt mode_tempdb ≡ false
      → has_mode opt mode_writedb ≡ false
      → (scan_files dbm opt files s).db ≡ s.db
  unfolding scan_files
  scan_files-readdb [] s temp write = refl
  scan_files-readdb (f ∷ files) s temp write =
      scan_files-readdb files (scan_file dbm opt f s) temp write ∙ scan_file-readdb f s temp write
