-- ===== src/Room/Keys.antt =====
-- The keys of the waiting room of one event, and that they differ.
use mathlib.Core.List.{append_assoc}
use openwar.Common.{◌≡◌, sym, ◌∙◌, false, ◌++◌, arith}
use openwar.Common.Text.{Text, codes, text_eq, text_eq_iff, text_eq_ne, append_cancel}

abbrev room_prefix : Text → Text → Text
room_prefix event rest = codes "room:" ++ (event ++ rest)

-- `room:%s:queue`
unfoldable pub queue_key : Text → Text
queue_key event = room_prefix event (codes ":queue")

-- `room:%s:hb:%s`, as the prefix that the worker passes on and the session behind it.
unfoldable pub hb_prefix : Text → Text
hb_prefix event = room_prefix event (codes ":hb:")

unfoldable pub admit_prefix : Text → Text
admit_prefix event = room_prefix event (codes ":admitted:")

abbrev pub hb_key : Text → Text → Text
hb_key event sid = hb_prefix event ++ sid

abbrev pub admit_key : Text → Text → Text
admit_key event sid = admit_prefix event ++ sid

regroup : (p event m s : Text) → (p ++ (event ++ m)) ++ s ≡ p ++ (event ++ (m ++ s))
regroup p event m s = simp append_assoc

tails : (event a b : Text) → room_prefix event a ≡ room_prefix event b → a ≡ b
tails event a b e = append_cancel event a b (append_cancel (codes "room:") _ _ e)

key_of : (event m s : Text) → room_prefix event m ++ s ≡ room_prefix event (m ++ s)
key_of event m s = regroup (codes "room:") event m s

pub hb-queue : (event s : Text) → text_eq (hb_key event s) (queue_key event) ≡ false
unfolding hb_prefix queue_key
hb-queue event s = text_eq_ne _ _ (λ e.
    differ
      (tails event (codes ":hb:" ++ s) (codes ":queue") (sym (key_of event (codes ":hb:") s) ∙ e)))
  where
    differ : ¬ (codes ":hb:" ++ s ≡ codes ":queue")
    differ e = ground arith

pub queue-hb : (event s : Text) → text_eq (queue_key event) (hb_key event s) ≡ false
unfolding hb_prefix queue_key
queue-hb event s = text_eq_ne _ _ (λ e.
    differ (tails event (codes ":queue") (codes ":hb:" ++ s) (e ∙ key_of event (codes ":hb:") s)))
  where
    differ : ¬ (codes ":queue" ≡ codes ":hb:" ++ s)
    differ e = ground arith

pub admit-queue : (event s : Text) → text_eq (admit_key event s) (queue_key event) ≡ false
unfolding admit_prefix queue_key
admit-queue event s = text_eq_ne _ _ (λ e. differ (
    tails event (codes ":admitted:" ++ s) (codes ":queue")
      (sym (key_of event (codes ":admitted:") s) ∙ e)))
  where
    differ : ¬ (codes ":admitted:" ++ s ≡ codes ":queue")
    differ e = ground arith

pub queue-admit : (event s : Text) → text_eq (queue_key event) (admit_key event s) ≡ false
unfolding admit_prefix queue_key
queue-admit event s = text_eq_ne _ _ (λ e. differ (
    tails event (codes ":queue") (codes ":admitted:" ++ s)
      (e ∙ key_of event (codes ":admitted:") s)))
  where
    differ : ¬ (codes ":queue" ≡ codes ":admitted:" ++ s)
    differ e = ground arith

pub admit-hb : (event s t : Text) → text_eq (admit_key event s) (hb_key event t) ≡ false
unfolding admit_prefix hb_prefix
admit-hb event s t = text_eq_ne _ _ (λ e. differ (
    tails event (codes ":admitted:" ++ s) (codes ":hb:" ++ t)
      (sym (key_of event (codes ":admitted:") s) ∙ e ∙ key_of event (codes ":hb:") t)))
  where
    differ : ¬ (codes ":admitted:" ++ s ≡ codes ":hb:" ++ t)
    differ e = ground arith

pub admit_key-eq :
    (event s t : Text) → text_eq (admit_key event s) (admit_key event t) ≡ text_eq s t
admit_key-eq event s t = same_prefix (admit_prefix event)
  where
    same_prefix : (p : Text) → text_eq (p ++ s) (p ++ t) ≡ text_eq s t
    same_prefix p =
        ground (arith, text_eq_iff (p ++ s) (p ++ t), text_eq_iff s t, append_cancel p s t)

pub hb-admit : (event s t : Text) → text_eq (hb_key event s) (admit_key event t) ≡ false
unfolding admit_prefix hb_prefix
hb-admit event s t = text_eq_ne _ _ (λ e. differ (
    tails event (codes ":hb:" ++ s) (codes ":admitted:" ++ t)
      (sym (key_of event (codes ":hb:") s) ∙ e ∙ key_of event (codes ":admitted:") t)))
  where
    differ : ¬ (codes ":hb:" ++ s ≡ codes ":admitted:" ++ t)
    differ e = ground arith
