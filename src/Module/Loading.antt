-- ===== src/Module/Loading.antt =====
-- A file is loaded once, and its module holds a well-formed program.
use cicest.Prelude.{
  ℕ, zero, suc, ◌+◌, ◌<◌, ◌^◌, ◌≡◌, refl, ap, ◌∙◌, inl, inr, Bool, true, List, [], ◌∷◌, ◌++◌, map,
  Option, none, some, some_inj, length, get_elem?, All, Bytes, bytes_eq, bytes_eq_iff, Bool-cases,
  Option-cases, subst, if◌then◌else◌,
}
use cicest.Span.{add_file}
use cicest.Span.Layout.{add_file-IsValid}
use cicest.Span.Layout as Layout
use cicest.Symbol.{SymbolTable, find, emplace}
use cicest.Symbol.Table.{find-cons}
use cicest.Ast.Items.{Program}
use cicest.Lexer.Laws.{HasRoom}
use cicest.Parser.{Parser}
use cicest.Parser.Monad.{Parsed}
use cicest.Parser.Ends.{Ends, ends_failed, ends_parsed}
use cicest.Parser.WellFormed.{items_ok}
use cicest.Parser.ProgramEnd.{program_ok, parse_source_at-Ends}
use cicest.Module.{
  Bindings, ModuleInfo, ModuleError, Checked, refused, done, collect_local_bindings, with_locals,
}
use cicest.Module.Load.{
  Resolver, Loaded, rejected, loaded_as, read_source_file, mark_at, enter_module, enter_parsed,
  new_module, with_file, enter_source, load_module,
}

abbrev ModuleOk : ModuleInfo → Type 0
ModuleOk m = items_ok m.program.items ≡ true

abbrev paths : List ModuleInfo → List Bytes
paths ms = map (λ m. m.path) ms

-- The files are laid out, every program is well formed, and the path of every module that is found is the one that it
-- is found by.
pub record IsSound (st : Resolver) : Type 0 where
  pub files : Layout.IsValid st.source_map
  pub programs : All ModuleOk st.modules
  pub found :
      (path : Bytes) (i : ℕ)
      → find path st.modules_by_path ≡ some i
      → get_elem? (paths st.modules) i ≡ some path

-- Every path that is found in `st` is found in `st'`, at the same index, and every module of `st` is there still, at its
-- index, with its path, its program and its number.
pub record Keeps (st st' : Resolver) : Type 0 where
  pub paths_kept :
      (path : Bytes) (i : ℕ)
      → find path st.modules_by_path ≡ some i
      → find path st'.modules_by_path ≡ some i
  pub modules_kept :
      (i : ℕ) (m : ModuleInfo)
      → get_elem? st.modules i ≡ some m
      → (m' : ModuleInfo) × (get_elem? st'.modules i ≡ some m')
        × (m'.path ≡ m.path)
        × (m'.program ≡ m.program)
        × (m'.module_id ≡ m.module_id)

-- What a call of `load_module` in the state `st` promises of its path.
pub data Loads (st : Resolver) (path : Bytes) : Loaded (Resolver × ℕ) → Type 0 where
  is_rejected : {e : ModuleError} → Loads st path (rejected e)
  is_loaded :
      {st' : Resolver} {i : ℕ}
      → IsSound st'
      → find path st'.modules_by_path ≡ some i
      → Keeps st st'
      → Loads st path (loaded_as (st', i))

mark_at-All :
    (i : ℕ) (root prelude : Bool) (ms : List ModuleInfo)
    → All ModuleOk ms
    → All ModuleOk (mark_at i root prelude ms)
unfolding mark_at
mark_at-All i root prelude [] h = h
mark_at-All zero root prelude (m ∷ ms) h = (h.0, h.1)
mark_at-All (suc i) root prelude (m ∷ ms) h = (h.0, mark_at-All i root prelude ms h.1)

paths-mark_at :
    (i : ℕ) (root prelude : Bool) (ms : List ModuleInfo)
    → paths (mark_at i root prelude ms) ≡ paths ms
unfolding mark_at
paths-mark_at i root prelude [] = refl
paths-mark_at zero root prelude (m ∷ ms) = refl
paths-mark_at (suc i) root prelude (m ∷ ms) = ap (◌∷◌ m.path) (paths-mark_at i root prelude ms)

All-snoc :
    (ms : List ModuleInfo) (m : ModuleInfo)
    → All ModuleOk ms
    → ModuleOk m
    → All ModuleOk (ms ++ m ∷ [])
All-snoc [] m h g = (g, tt)
All-snoc (x ∷ ms) m h g = (h.0, All-snoc ms m h.1 g)

path_kept :
    (ms : List ModuleInfo) (m : ModuleInfo) (i : ℕ) (path : Bytes)
    → get_elem? (paths ms) i ≡ some path
    → get_elem? (paths (ms ++ m ∷ [])) i ≡ some path
path_kept [] m i path h = absurd (cc h)
path_kept (x ∷ ms) m zero path h = h
path_kept (x ∷ ms) m (suc i) path h = path_kept ms m i path h

path_new :
    (ms : List ModuleInfo) (m : ModuleInfo)
    → get_elem? (paths (ms ++ m ∷ [])) (length ms) ≡ some m.path
path_new [] m = refl
path_new (x ∷ ms) m = path_new ms m

emplace_fresh :
    (path : Bytes) (i : ℕ) (by_path : List (Bytes × ℕ))
    → find path by_path ≡ none
    → emplace path i by_path ≡ (path, i) ∷ by_path
unfolding emplace
emplace_fresh path i by_path h = rw (h, emplace) refl

find-fresh :
    (path key : Bytes) (i : ℕ) (by_path : List (Bytes × ℕ))
    → find path by_path ≡ none
    → find key (emplace path i by_path) ≡ (if bytes_eq path key then some i else find key by_path)
find-fresh path key i by_path h = rw (emplace_fresh path i by_path h) (find-cons path key i by_path)

found_kept :
    (ms : List ModuleInfo) (m : ModuleInfo) (by_path : List (Bytes × ℕ))
    → find m.path by_path ≡ none
    → ((path : Bytes) (i : ℕ) → find path by_path ≡ some i → get_elem? (paths ms) i ≡ some path)
    → (key : Bytes) (i : ℕ) → find key (emplace m.path (length ms) by_path) ≡ some i
    → get_elem? (paths (ms ++ m ∷ [])) i ≡ some key
found_kept ms m by_path fresh found key i h = elim (Bool-cases (bytes_eq m.path key)) [
  | inl same ↦
      let at_end : some (length ms) ≡ some i =
        rw same at (rw (find-fresh m.path key (length ms) by_path fresh) at h) in
      let named : m.path ≡ key = (bytes_eq_iff m.path key).0 same in
      cc (path_new ms m, some_inj at_end, named)
  | inr other ↦
      let before : find key by_path ≡ some i =
        rw other at (rw (find-fresh m.path key (length ms) by_path fresh) at h) in
      path_kept ms m i key (found key i before)
]

mark_at-kept :
    (index : ℕ) (root prelude : Bool) (ms : List ModuleInfo) (i : ℕ) (m : ModuleInfo)
    → get_elem? ms i ≡ some m
    → (m' : ModuleInfo) × (get_elem? (mark_at index root prelude ms) i ≡ some m')
      × (m'.path ≡ m.path)
      × (m'.program ≡ m.program)
      × (m'.module_id ≡ m.module_id)
unfolding mark_at
mark_at-kept index root prelude [] i m h = absurd (cc h)
mark_at-kept zero root prelude (x ∷ ms) zero m h =
    let same : x ≡ m = some_inj h in
    (_, refl, ap (λ y. y.path) same, ap (λ y. y.program) same, ap (λ y. y.module_id) same)
mark_at-kept zero root prelude (x ∷ ms) (suc i) m h = (m, h, refl, refl, refl)
mark_at-kept (suc index) root prelude (x ∷ ms) zero m h = (m, h, refl, refl, refl)
mark_at-kept (suc index) root prelude (x ∷ ms) (suc i) m h =
    mark_at-kept index root prelude ms i m h

module_kept :
    (ms : List ModuleInfo) (new : ModuleInfo) (i : ℕ) (m : ModuleInfo)
    → get_elem? ms i ≡ some m
    → get_elem? (ms ++ new ∷ []) i ≡ some m
module_kept [] new i m h = absurd (cc h)
module_kept (x ∷ ms) new zero m h = h
module_kept (x ∷ ms) new (suc i) m h = module_kept ms new i m h

-- A new path does not hide one that is found.
find-kept :
    (path : Bytes) (index : ℕ) (by_path : List (Bytes × ℕ))
    → find path by_path ≡ none
    → (key : Bytes) (i : ℕ) → find key by_path ≡ some i
    → find key (emplace path index by_path) ≡ some i
find-kept path index by_path fresh key i h = elim (Bool-cases (bytes_eq path key)) [
  | inl same ↦
      let named : path ≡ key = (bytes_eq_iff path key).0 same in
      absurd (cc (subst (λ k. find k by_path ≡ none) named fresh, h))
  | inr other ↦ rw (find-fresh path key index by_path fresh) (rw other h)
]

-- A new module that is well formed is entered.
enter_module-Loads :
    (st : Resolver) (m : ModuleInfo) (x : Checked (SymbolTable × Bindings))
    → IsSound st
    → find m.path st.modules_by_path ≡ none
    → ModuleOk m
    → Loads st m.path (enter_module st m.path (with_locals m x))
enter_module-Loads st m (refused e) sound fresh ok = is_rejected
enter_module-Loads st m (done (table, bindings)) sound fresh ok =
    is_loaded
      (record {
        files = sound.files;
        programs = All-snoc st.modules _ sound.programs ok;
        found = found_kept st.modules _ st.modules_by_path fresh sound.found;
      })
      (find-fresh m.path m.path (length st.modules) st.modules_by_path fresh
        ∙ rw ((bytes_eq_iff m.path m.path).1 refl) refl)
      (record {
        paths_kept = find-kept m.path (length st.modules) st.modules_by_path fresh;
        modules_kept = λ i old h. (old, module_kept st.modules _ i old h, refl, refl, refl);
      })

-- The promise depends on the modules and their paths alone.
Loads-moved :
    {st st' : Resolver} {path : Bytes} {x : Loaded (Resolver × ℕ)}
    → st'.modules_by_path ≡ st.modules_by_path
    → st'.modules ≡ st.modules
    → Loads st path x
    → Loads st' path x
Loads-moved e f is_rejected = is_rejected
Loads-moved e f (is_loaded sound there keeps) = is_loaded sound there (record {
  paths_kept = λ key i h. keeps.paths_kept key i (subst (λ p. find key p ≡ some i) e h);
  modules_kept = λ i m h. keeps.modules_kept i m (subst (λ ms. get_elem? ms i ≡ some m) f h);
})

enter_parsed-Loads :
    (st : Resolver) (m : ModuleInfo) {p : Parser} (result : Parsed Program)
    → IsSound st
    → find m.path st.modules_by_path ≡ none
    → Ends program_ok 0 p result
    → Loads st m.path (enter_parsed st m.path m result)
unfolding collect_local_bindings
enter_parsed-Loads st m _ sound fresh (ends_failed moved) = is_rejected
enter_parsed-Loads st m _ sound fresh (ends_parsed {a = program} {q} moved ok) =
    Loads-moved refl refl (
      enter_module-Loads (record st { table = q.table; warnings = q.warnings })
        (record m { program = program }) _
        (record { files = sound.files; programs = sound.programs; found = sound.found }) fresh ok)

-- The positions and the symbol table have room for a source.
abbrev pub HasRoomFor : Resolver → Bytes → Type 0
HasRoomFor st source =
    HasRoom st.table st.source_map.next_start_pos source
    × (st.source_map.next_start_pos + length source + 1 < 2 ^ 64)

enter_source-Loads :
    (st : Resolver) (path : Bytes) (is_root is_prelude : Bool) (source : Bytes)
    → IsSound st
    → find path st.modules_by_path ≡ none
    → HasRoomFor st source
    → Loads st path (enter_source st path is_root is_prelude source)
unfolding enter_source
enter_source-Loads st path is_root is_prelude source sound fresh room =
    let (valid, id, next, entry, others) =
      add_file-IsValid st.source_map path source sound.files room.1 in
    let (f, there, same_id, same_name, text, start, lines) = entry in
    let room_there : HasRoom st.table f.start_pos f.source = rw (text, start) room.0 in
    let (out, result, lexed, parse, ends) =
      parse_source_at-Ends st.table f.source f.start_pos st.warnings room_there in
    rw (there, enter_source)
      (rw (parse, enter_source)
        (Loads-moved refl refl (
          enter_parsed-Loads (with_file st path is_root source)
            (new_module st path (add_file st.source_map path source).1 is_root is_prelude) result
            (record { files = valid; programs = sound.programs; found = sound.found }) fresh ends)))

-- `load_module` ends, given room for the source: in an error, or with the state sound still and an index at which the
-- path is found. Every path that was found before is found at the index it had, and every module that was there stays
-- at its index, with its path, its program and its number.
pub load_module-Loads :
    (read : Bytes → Option (Option Bytes)) (path : Bytes) (is_root is_prelude : Bool)
    (st : Resolver)
    → IsSound st
    → ((source : Bytes) → read path ≡ some (some source) → HasRoomFor st source)
    → Loads st path (load_module read path is_root is_prelude st)
unfolding load_module read_source_file
load_module-Loads read path is_root is_prelude st sound room =
    elim (Option-cases (find path st.modules_by_path)) [
      | inr (i, there) ↦
          rw (there, load_module)
            (is_loaded
              (record {
                files = sound.files;
                programs = mark_at-All i is_root is_prelude st.modules sound.programs;
                found = λ key j h.
                    rw (paths-mark_at i is_root is_prelude st.modules) (sound.found key j h);
              })
              there
              (record {
                paths_kept = λ key j h. h;
                modules_kept = λ j m h. mark_at-kept i is_root is_prelude st.modules j m h;
              }))
      | inl fresh ↦
          rw (fresh, load_module)
            (elim (Option-cases (read path)) [
              | inl unopened ↦ rw (unopened, read_source_file) is_rejected
              | inr (none, unread) ↦ rw (unread, read_source_file) is_rejected
              | inr (some source, whole) ↦
                  rw (whole, read_source_file)
                    (enter_source-Loads st path is_root is_prelude source sound fresh
                      (room source whole))
            ])
    ]
