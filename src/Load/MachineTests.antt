-- ===== src/Load/MachineTests.antt =====
-- A kernel whose maps have one key, and a unit with one map and one program.
use koit.Base.{
  ℕ, ◌+◌, ◌≡◌, ◌⊎◌, refl, arith, none, some, List, [], ◌∷◌, ◌++◌, ok, true, false, ◌==◌,
  if◌then◌else◌, replicate,
}
use koit.Base.Bytes.{Bytes, pack_all, pack, le_bytes}
use koit.Base.Dict.{get, same_bytes, bytes_eq}
use koit.Base.Text.{text}
use koit.Document.{KoitUnit, MapDecl, Program, hash, ro}
use koit.Document.Layout.{int}
use koit.Load.{initial_values}
use koit.Load.Attr.{attr_map_elem}
use koit.Load.Contents.{Holds, initial_values-Holds}
use koit.Load.Machine.{
  Event, Machine, Buffer, given, space, Reply, done, refused, World, syscall_nr,
}
use koit.Load.Main.{Args, run_unit}
use koit.Load.Creation.{Creates, create_map-Creates}
use koit.Load.Maps.{lookup, read_map, create_map}
use koit.Load.Order.{Stops, Goes, run_unit_in_order}
use koit.Load.Refusals.{value_of, lookup_by_reply}
use koit.Load.Walk.{Gives, read_map_lists_all}
use koit.Report.{pairs}

abbrev key : Bytes
key = 1 ∷ (2 ∷ (3 ∷ (4 ∷ [])))

abbrev value : Bytes
value = 9 ∷ replicate 7 0

-- The next key from no key is the one, and behind it there is none; a lookup finds its value; any other
-- command gives the descriptor 3.
abbrev kernel_reply : ℕ → List Buffer → Reply
kernel_reply cmd (space n ∷ buffers) = done 0 [] key
kernel_reply cmd (given k ∷ buffers) = if cmd == 4 then refused 2 else done 0 [] value
kernel_reply cmd [] = done 3 [] []

abbrev machine : Machine
machine = record {
  State = ℕ;
  architecture = text "x86_64";
  release = text "6.8.0";
  page = 4096;
  vmlinux = none;
  address = λ now i. 8 + i;
  syscall = λ nr cmd attr buffers s. (kernel_reply cmd buffers, s);
  ring = λ fd size s. ([], []);
  consume = λ fd consumer s. s;
  close = λ fd s. (none, s);
}

abbrev world : World ℕ
world = record { kernel = 0; events = [] }

abbrev hits : MapDecl
hits = record {
  name = text "hits";
  kind = hash;
  type_id = 1;
  key = some (int false 32);
  key_size = 4;
  value = some (int false 64);
  value_size = 8;
  entries = 16;
  flags = 0;
  access = ro;
  contents = [];
  direct = false;
  programs = text "main" ∷ [];
  spin_lock = none;
}

abbrev main_program : Program
main_program = record {
  name = text "main";
  kind = text "xdp";
  prog_type_id = 6;
  section = text "xdp";
  attach_id = 37;
  result = text "u32";
  verdicts = [];
  words = text "0xb700000000000000" ∷ (text "0x9500000000000000" ∷ []);
  relocs = [];
  subprograms = [];
}

abbrev unit : KoitUnit
unit = record {
  kernel = text "v6.8";
  cpu = text "v3";
  name = text "unit";
  license = text "GPL";
  types = [];
  maps = hits ∷ [];
  programs = main_program ∷ [];
  fns = [];
}

abbrev args : Args
args = record { packet = text "00ff"; program = none; any_kernel = false; show_packet = true }

number : get syscall_nr (text "x86_64") ≡ some 321
unfolding get same_bytes
number = refl

abbrev attr : Bytes
attr = 3 ∷ (replicate 7 0 ++ (8 ∷ (replicate 7 0 ++ (9 ∷ replicate 15 0))))

packs : attr_map_elem 3 8 9 0 ≡ ok attr
unfolding attr_map_elem pack_all pack le_bytes
packs = refl

abbrev first_attr : Bytes
first_attr = 3 ∷ (replicate 15 0 ++ (8 ∷ replicate 15 0))

packs_first : attr_map_elem 3 0 8 0 ≡ ok first_attr
unfolding attr_map_elem pack_all pack le_bytes
packs_first = refl

read_map_lists_all_example :
    Gives 0 (pairs ((key, some value) ∷ [])) (read_map machine hits 3 world)
read_map_lists_all_example =
    read_map_lists_all machine 321 number 0 hits 3 ((key, value) ∷ []) world refl (omega arith) refl
      (λ now. (first_attr, 0, [], packs_first, refl), λ now. (attr, packs, refl))
      (λ now. (attr, 0, [], packs, refl), tt)

lookup_by_reply_example :
    ((lookup machine 3 key 8 world).0 ≡ value_of (done 0 [] value))
    × ((lookup machine 3 key 8 world).1.kernel ≡ 0)
lookup_by_reply_example =
    lookup_by_reply machine 321 number 3 8 key attr world (done 0 [] value) 0 packs refl

initial_values-Holds_example : Holds 4 0 3 (replicate 6 1) (initial_values (replicate 6 1) 4 0 3)
initial_values-Holds_example = initial_values-Holds (replicate 6 1) 4 0 3 (omega arith)

run_unit_in_order_example :
    Stops machine world (run_unit machine args unit world)
    ⊎ Goes machine args unit world (run_unit machine args unit world)
run_unit_in_order_example = run_unit_in_order machine args unit world

-- A map with three bytes of contents, in two entries of two bytes.
abbrev filled : MapDecl
filled = record hits { key_size = 4; value_size = 2; entries = 2; contents = text "010203" }

abbrev after : World ℕ
after = (create_map machine unit filled world).1

creates : create_map machine unit filled world ≡ (ok 3, after)
unfolding attr_map_elem create_map get initial_values koit.Base.Text.digit_value
    koit.Base.Text.from_hex koit.Base.Text.is_hex_space koit.Base.Text.hex_pair
    koit.Load.Attr.attr_btf_load koit.Load.Attr.attr_map_create koit.Load.Attr.name_field
    koit.Load.Machine.bpf koit.Load.Machine.call koit.Load.Maps.btf_ids
    koit.Load.Maps.exit_on_os_error koit.Load.Maps.fill_map koit.Load.Maps.freeze
    koit.Load.Maps.freeze_for koit.Load.Maps.update koit.Load.Maps.write_values le_bytes pack
    pack_all same_bytes
creates = refl

create_map-Creates_example :
    (evs : List Event) × (after.events ≡ world.events ++ evs)
    × Creates machine filled 3 world.events evs
create_map-Creates_example = create_map-Creates machine unit filled world refl creates
