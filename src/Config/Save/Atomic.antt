-- ===== src/Config/Save/Atomic.antt =====
-- The file is the old one or the new one.
use lsmf.Base.{Option, none, some, ◌≡◌, refl, arith, String}
use lsmf.Base.Results.{Result, ok, err, ◌>>◌}
use lsmf.Config.Values.{Text, Digits}
use lsmf.Config.Parse.{Settings}
use lsmf.Config.Save.{
  Place, Disk, render, check_settings, prepared, or_write, written, replaced, give_up,
  write_config_atomic,
}

-- A call that returns has replaced the file and left no temporary file; one that raises has left it
-- as it was.
abbrev pub IsAtomic : Text → Place → Result (Unit {0}) × Place → Type 0
IsAtomic text p (ok _, q) = (q.file ≡ some text) × (q.temporary ≡ none)
IsAtomic text p (err message, q) = q.file ≡ p.file

module _ (disk : Disk) (text : Text) (p : Place) where
  give_up-IsAtomic :
      (message : String) (t : Option Text)
      → IsAtomic text p (give_up disk message (record p { temporary = t }))
  give_up-IsAtomic message t = ground arith

  replaced-IsAtomic : IsAtomic text p (replaced disk (record p { temporary = some text }))
  replaced-IsAtomic = ground arith

  written-IsAtomic : IsAtomic text p (written disk text p)
  written-IsAtomic = ground arith

  or_write-IsAtomic : (r : Result (Unit {0})) → IsAtomic text p (or_write r disk text p)
  or_write-IsAtomic (ok _) = written-IsAtomic
  or_write-IsAtomic (err message) = refl

-- Whatever fails: if `write_config_atomic` returns, then the file is the text of the settings and no
-- temporary file is left, and if it raises, the file is as it was.
pub write_config-IsAtomic :
    (digits : Digits) (disk : Disk) (values : Settings) (p : Place)
    → IsAtomic (render values) p (write_config_atomic digits disk values p)
unfolding write_config_atomic
write_config-IsAtomic digits disk values p =
    or_write-IsAtomic disk (render values) p (check_settings digits values >> prepared disk)
