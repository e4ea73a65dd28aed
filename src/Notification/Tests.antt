-- ===== src/Notification/Tests.antt =====
-- Small runs of the notifications.
use lesser.Common.{ℕ, ◌≡◌, ◌≢◌, refl, Bool, false, none, some, List, [], ◌∷◌, ◌==◌, arith}
use lesser.Common.Text.{codes}
use lesser.Db.{Store, ok, err, reject}
use lesser.Notification.{Tables, notification_not_found}
use lesser.Notification.Service.{
  create, truncate_text, get_unread_count, mark_all_as_read, mark_as_read,
}
use lesser.Notification.Events.{Event, content_liked, handle}
use lesser.Notification.Delivery.{
  IsDistinct, Delivery, deliver_all, handle-again, deliver_all-IsDistinct,
}

abbrev up : ℕ → Bool
up _ = false

abbrev down : ℕ → Bool
down n = n == 1

abbrev empty_store : Store Tables
empty_store = record { tables = record { notifications = [] }; statements = 0 }

abbrev liked : Event
liked = content_liked 3 5 7

abbrev told_once : Store Tables
told_once = (handle up 20 (some liked) empty_store).1

five : ◌≢◌ {A = ℕ} 5 0
five = ground arith

seven : ◌≢◌ {A = ℕ} 7 0
seven = ground arith

handle_returns : (handle up 20 (some liked) empty_store).0 ≡ ok tt
unfolding handle create
handle_returns = refl

unread_once : (get_unread_count up 3 told_once).0 ≡ ok 1
unfolding handle create get_unread_count
unread_once = refl

mark_as_read-other : (mark_as_read up 20 4 told_once).0 ≡ err (reject notification_not_found)
unfolding handle create mark_as_read
mark_as_read-other = refl

truncate_text_short : truncate_text (codes "abcdef") 5 ≡ codes "ab..."
unfolding truncate_text
truncate_text_short = refl

handle-again_example : (handle down 21 (some liked) told_once).1.tables ≡ told_once.tables
handle-again_example =
    handle-again up down 20 21 liked empty_store told_once (five, seven) handle_returns refl

abbrev deliveries : List Delivery
deliveries =
    record { fails = down; fresh = 20; event = some liked }
    ∷ record { fails = up; fresh = 21; event = some liked }
    ∷ record { fails = up; fresh = 22; event = none }
    ∷ record { fails = up; fresh = 23; event = some liked }
    ∷ []

empty-IsDistinct : IsDistinct empty_store.tables
empty-IsDistinct = record { once = λ u actor target type. ground arith; others = refl }

deliver_all-IsDistinct_example : IsDistinct (deliver_all deliveries empty_store).tables
deliver_all-IsDistinct_example = deliver_all-IsDistinct deliveries empty_store empty-IsDistinct

marked_once : (mark_all_as_read up 3 told_once).0 ≡ ok 1
unfolding handle create mark_all_as_read
marked_once = refl
