-- ===== src/Tests/User.antt =====
-- The mailboxes of a user at concrete inputs. A time is a number here.
use imap_go.MemServer.User.Names.{
  IsWellNamed, operations-IsWellNamed, get_mailbox-rename_mailbox, rename_inbox,
}
use imap_go.MemServer.User.{
  UserData, mailbox_already_exists, cannot_delete_inbox, inbox_name, new_user_data, normalize_inbox,
  get_mailbox, create_mailbox, delete_mailbox, rename_mailbox,
}
use imap_go.Prelude.{ℕ, none, some, ◌≡◌, refl, arith, Bytes, codes, equal, if◌then◌else◌, lookup}

abbrev work : Bytes
work = codes "work"

abbrev play : Bytes
play = codes "play"

abbrev user : UserData ℕ
user = (create_mailbox work new_user_data).1

user-IsWellNamed : IsWellNamed user
unfolding create_mailbox new_user_data
user-IsWellNamed = ((refl, omega arith), ((refl, omega arith), tt))

operations-IsWellNamed_example :
    IsWellNamed (create_mailbox play user).1
    × IsWellNamed (delete_mailbox play user).1
    × IsWellNamed (rename_mailbox work play user).1
unfolding create_mailbox new_user_data get_mailbox
operations-IsWellNamed_example = operations-IsWellNamed play work play user user-IsWellNamed refl

get_mailbox-rename_mailbox_example :
    ((rename_mailbox work play user).0 ≡ none)
    × (get_mailbox (rename_mailbox work play user).1 play ≡ (
        if equal play play
        then some 1
        else if equal work play
        then none
        else get_mailbox user play))
unfolding create_mailbox new_user_data get_mailbox normalize_inbox
get_mailbox-rename_mailbox_example = get_mailbox-rename_mailbox work play play 1 user refl refl refl

rename_inbox_example :
    let after = (rename_mailbox (codes "inbox") play user).1 in
    (lookup inbox_name after.entries ≡ some 0)
    × (lookup play after.entries ≡ some 0)
    × ((after.boxes 0).name ≡ play)
unfolding create_mailbox new_user_data get_mailbox
rename_inbox_example = rename_inbox (codes "inbox") play 0 user refl refl refl refl

delete_inbox : (delete_mailbox (codes "InBox") user).0 ≡ some cannot_delete_inbox
unfolding delete_mailbox
delete_inbox = refl

create_inbox : (create_mailbox (codes "inbox") user).0 ≡ some mailbox_already_exists
unfolding create_mailbox new_user_data
create_inbox = refl
