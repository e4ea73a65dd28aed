-- ===== src/Notification/Reading.antt =====
-- Reading notifications.
use lesser.Common.{
  ℕ, ◌≡◌, ◌≢◌, refl, Bool, true, List, [], ◌∷◌, map, if◌then◌else◌, count_by, arith,
}
use lesser.Db.{Store, ok}
use lesser.Notification.{Notification, Tables}
use lesser.Notification.Service.{is_unread, get_unread_count, mark_all_as_read}

unread_none :
    (u : ℕ) (ns : List Notification)
    → count_by
        (is_unread u)
        (map (λ n. if is_unread u n then record n { is_read = true } else n) ns)
      ≡ 0
unread_none u [] = refl
unread_none u (n ∷ ns) = ground (arith, unread_none u ns)

unread_others :
    (u w : ℕ)
    → u ≢ w
    → (ns : List Notification)
    → count_by
        (is_unread w)
        (map (λ n. if is_unread u n then record n { is_read = true } else n) ns)
      ≡ count_by (is_unread w) ns
unread_others u w ne [] = refl
unread_others u w ne (n ∷ ns) = ground (arith, unread_others u w ne ns)

-- The count of GetUnreadCount, without the database.
abbrev pub unread_of : ℕ → Tables → ℕ
unread_of u t = count_by (is_unread u) t.notifications

module _ (fails : ℕ → Bool) (u : ℕ) (s : Store Tables) where
  -- When MarkAllAsRead returns, it gives the number of the user's unread notifications before the
  -- call; after it he has none, which GetUnreadCount tells if it returns, and every other user has as
  -- many as before.
  pub mark_all_as_read-ok :
      (n : ℕ)
      → (mark_all_as_read fails u s).0 ≡ ok n
      → (n ≡ unread_of u s.tables)
        × ((later : ℕ → Bool) (m : ℕ)
            → (get_unread_count later u (mark_all_as_read fails u s).1).0 ≡ ok m
            → m ≡ 0)
        × ((w : ℕ)
            → u ≢ w
            → unread_of w (mark_all_as_read fails u s).1.tables ≡ unread_of w s.tables)
  unfolding mark_all_as_read get_unread_count
  mark_all_as_read-ok n e = (
    ground arith,
    λ later m f. ground (arith, unread_none u s.tables.notifications),
    λ w ne. ground (arith, unread_others u w ne s.tables.notifications),
  )
