-- ===== src/Text/Clock.antt =====
-- Times of the servers' clocks, as nanoseconds of local time, and how package time formats them.
use cmpt436chat_client.Prelude.{ℕ, ◌/◌, ◌%◌, ◌++◌, ◌==◌, if◌then◌else◌, ltb}
use cmpt436chat_client.Text.{Text, codes, digits, digits2}

abbrev pub hour : ℕ
hour = 3600000000000

-- time.Format(time.Kitchen), the layout "3:04PM".
unfoldable pub kitchen : ℕ → Text
kitchen t =
    let h = (t / hour) % 24 in
    let m = (t / (hour / 60)) % 60 in
    let h12 = if h % 12 == 0 then 12 else h % 12 in
    digits h12 ++ codes ":" ++ digits2 m ++ (if ltb h 12 then codes "AM" else codes "PM")
