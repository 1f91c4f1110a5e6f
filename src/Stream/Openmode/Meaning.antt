-- ===== src/Stream/Openmode/Meaning.antt =====
-- What opening a file in each mode does to it.
use ssh2_cpp.Base.{◌↔◌, Bool, true, false, not, ◌||◌, ◌&&◌, if◌then◌else◌, ◌≡◌, arith}
use ssh2_cpp.Libssh2.{OpenFlags}
use ssh2_cpp.Effect.{returned, thrown, plain, invalid_argument}
use ssh2_cpp.Stream.Openmode.{Openmode, StdOpenmode, translate_flags, openmode_to_libssh2_flags}

-- Whether opening may create the file: for output, unless it is also for input and not truncated.
abbrev pub may_create : Openmode → Bool
may_create m = m.output && (not m.input || m.trunc)

abbrev pub flags_of : Openmode → OpenFlags
flags_of m = record {
  fxf_read = m.input;
  fxf_write = m.output;
  fxf_append = m.output && not m.input && m.app;
  fxf_creat = may_create m && not m.nocreate;
  fxf_trunc = m.output && (if m.input then m.trunc else not m.app);
  fxf_excl = may_create m && not m.nocreate && m.noreplace;
}

pub openmode_to_libssh2_flags_table :
    (m : Openmode)
    → openmode_to_libssh2_flags m ≡ (
        if may_create m && m.nocreate && m.noreplace
        then thrown (plain (invalid_argument "Cannot combine nocreate and noreplace"))
        else returned (flags_of m))
unfolding openmode_to_libssh2_flags
openmode_to_libssh2_flags_table m = ground arith

-- What a server does with a file on opening it.
pub data Opening : Type 0 where
  refused kept emptied created : Opening

-- What the flags are documented to mean to a server, for a file that exists or does not. The comments of
-- ssh/stream.hpp say that SFTP does not allow truncation without creation, but that it may work: what
-- the server does then to an existing file is `lone_trunc`. Exclusion is only asked for with creation.
pub record OpensFiles (opening : OpenFlags → Bool → Opening) (lone_trunc : Opening) : Type 0 where
  pub creates : (f : OpenFlags) → f.fxf_creat ≡ true → opening f false ≡ created
  pub misses : (f : OpenFlags) → f.fxf_creat ≡ false → opening f false ≡ refused
  pub excludes : (f : OpenFlags) → f.fxf_creat ≡ true → f.fxf_excl ≡ true → opening f true ≡ refused
  pub empties :
      (f : OpenFlags)
      → f.fxf_creat ≡ true
      → f.fxf_excl ≡ false
      → f.fxf_trunc ≡ true
      → opening f true ≡ emptied
  pub truncates_alone :
      (f : OpenFlags)
      → f.fxf_creat ≡ false
      → f.fxf_excl ≡ false
      → f.fxf_trunc ≡ true
      → opening f true ≡ lone_trunc
  pub keeps : (f : OpenFlags) → f.fxf_excl ≡ false → f.fxf_trunc ≡ false → opening f true ≡ kept

-- What a mode does to a file, by whether the file exists.
abbrev pub effect_of : Opening → Openmode → Bool → Opening
effect_of lone_trunc m true =
    if may_create m && m.noreplace
    then refused
    else if m.output && (if m.input then m.trunc else not m.app)
    then if m.nocreate then lone_trunc else emptied
    else kept
effect_of lone_trunc m false = if may_create m && not m.nocreate then created else refused

module _ (opening : OpenFlags → Bool → Opening) (lone_trunc : Opening)
    (server : OpensFiles opening lone_trunc) where
  -- On a server that opens files by the documented meaning of the flags, a mode that is translated has
  -- this effect. A missing file is created exactly by a mode that may create it, for output and, if
  -- also for input, with `trunc`, and that has no `nocreate`; any other mode is refused, `in` with
  -- `trunc` and no `out` among them, for which the documentation of `in` promises a new empty file. An
  -- existing file is refused by a mode that may create it and has `noreplace`. Else a mode for output
  -- that has `trunc` with input, or no `app` without input, empties it, except that with `nocreate` it
  -- does what the server does on truncation without creation; any other mode keeps it.
  pub openmode_to_libssh2_flags_effect :
      (m : Openmode) (exists : Bool) {flags : OpenFlags}
      → openmode_to_libssh2_flags m ≡ returned flags
      → opening flags exists ≡ effect_of lone_trunc m exists
  openmode_to_libssh2_flags_effect m true h = ground (
    arith,
    openmode_to_libssh2_flags_table m,
    server.excludes (flags_of m),
    server.empties (flags_of m),
    server.truncates_alone (flags_of m),
    server.keeps (flags_of m),
  )
  openmode_to_libssh2_flags_effect m false h = ground (
    arith,
    openmode_to_libssh2_flags_table m,
    server.creates (flags_of m),
    server.misses (flags_of m),
  )

  -- `noreplace` without effect: on a server that opens files by the documented meaning of the flags, a
  -- mode for input and output that has no `trunc` opens an existing file and keeps it, although it has
  -- `noreplace`.
  pub noreplace_ignored :
      (m : Openmode)
      → m.input ≡ true
      → m.output ≡ true
      → m.trunc ≡ false
      → m.noreplace ≡ true
      → (flags : OpenFlags) × (openmode_to_libssh2_flags m ≡ returned flags)
        × (opening flags true ≡ kept)
  unfolding openmode_to_libssh2_flags
  noreplace_ignored m i o t n =
      (flags_of m, ground arith, server.keeps (flags_of m) (ground arith) (ground arith))

  -- `trunc` without effect: on a server that opens files by the documented meaning of the flags, a mode
  -- for output, not input, that has `app` and `trunc` and not `noreplace` keeps an existing file.
  pub trunc_ignored :
      (m : Openmode)
      → m.input ≡ false
      → m.output ≡ true
      → m.app ≡ true
      → m.trunc ≡ true
      → m.noreplace ≡ false
      → (flags : OpenFlags) × (openmode_to_libssh2_flags m ≡ returned flags)
        × (opening flags true ≡ kept)
  unfolding openmode_to_libssh2_flags
  trunc_ignored m i o a t n =
      (flags_of m, ground arith, server.keeps (flags_of m) (ground arith) (ground arith))

-- A standard mode is translated to a mode exactly if it has no `ate` and the mode has its `in`, `out`,
-- `app` and `trunc` bits and neither `nocreate` nor `noreplace`.
pub translate_flags_total :
    (std : StdOpenmode) (m : Openmode)
    → (translate_flags std ≡ returned m) ↔ (
        (std.std_ate ≡ false)
        × (m ≡ record {
          input = std.std_in;
          output = std.std_out;
          app = std.std_app;
          trunc = std.std_trunc;
          nocreate = false;
          noreplace = false;
        }))
unfolding translate_flags
translate_flags_total std m = ground arith

-- A mode that comes of a standard mode has flags: the translation to flags does not throw for it.
pub translate_flags-openable :
    (std : StdOpenmode) (m : Openmode)
    → translate_flags std ≡ returned m
    → openmode_to_libssh2_flags m ≡ returned (flags_of m)
translate_flags-openable std m h =
    ground (arith, openmode_to_libssh2_flags_table m, translate_flags_total std m)
