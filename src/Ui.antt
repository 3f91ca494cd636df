-- ===== src/Ui.antt =====
-- pc-client/src/ui: the desktop client's window. Qt draws the widgets; what they hold, whether they
-- take input, and what the window asks of the client is modelled. A widget that is disabled
-- takes no input, as Qt documents.
pub mod Panel
pub mod Browser
pub mod Window
pub mod Inputs
pub mod Consistent
