-- ===== src/Tests.antt =====
-- Runs of the theorems on concrete texts, pages and hosts.
mod Hosts
mod Inserting
mod Addresses
mod Charts
mod Themes
mod Sorting
mod Utilities
mod Windows
mod Pages
mod Bookmarks
