-- ===== src/Tests/Output.antt =====
-- The theorems on `extract`, in a directory that has one file.
use magicrescue.Base.{ℕ, ◌+◌, ◌≡◌, ◌≢◌, refl, some, [], inl, arith}
use magicrescue.Base.Int.{pos}
use magicrescue.Parse.Scanf.{codes, bytes_eq, after_prefix}
use magicrescue.Extract.{
  System, Naming, mode_files, mode_device, no_name, candidate, compose_name, extract, rename_target,
}
use magicrescue.Extract.Names.{IsFirstFree, compose_name-IsFirstFree, compose_name-ends}
use magicrescue.Extract.Output.{IsOutput, extract-IsOutput}
use magicrescue.Tests.Concrete.{the_recipe}

-- The state is a position; `o/d-0.` exists, and every output has 150 bytes.
abbrev the_system : System ℕ
the_system = record {
  lstat = λ name w. bytes_eq name (codes "o/d-0.");
  lseek = λ x w. some x;
  pipe = λ w. some w;
  shell = λ command name w. (pos 0, w + 1);
  shell_output = λ command name w. (codes "RENAME z", w + 1);
  stat = λ name w. some 150;
  unlink = λ name w. w;
  rename = λ a b w. w;
}

abbrev the_naming : Naming
the_naming = record { name_mode = mode_files; output_dir = codes "o"; device_basename = codes "d" }

device_name :
    candidate (record the_naming { name_mode = mode_device }) 0xABC (codes "x") 12
    ≡ codes "o/000000000ABC-12.x"
unfolding candidate
device_name = refl

renamed : rename_target (codes "RENAME new name\nmore") ≡ some (codes "new name")
unfolding rename_target after_prefix
renamed = refl

compose_name-IsFirstFree_example : IsFirstFree the_system the_naming 0 [] 0 0 (codes "o/d-1.")
unfolding compose_name bytes_eq
compose_name-IsFirstFree_example =
    compose_name-IsFirstFree the_system the_naming 2 0 [] 0 0 (codes "o/d-1.") refl

compose_name-ends_example : compose_name the_system the_naming 2 0 [] 0 0 ≢ no_name
unfolding candidate bytes_eq
compose_name-ends_example =
    compose_name-ends the_system the_naming 2 0 [] 0 1 0 (omega arith) (omega arith) (inl refl)

extract-IsOutput_example :
    IsOutput the_system the_naming the_recipe (extract the_system the_naming 2 the_recipe 4 0).0
unfolding bytes_eq candidate
extract-IsOutput_example =
    extract-IsOutput the_system the_naming 2 the_recipe 4 0
      (compose_name-ends the_system the_naming 2 4 [] 0 1 0 (omega arith) (omega arith) (inl refl))
